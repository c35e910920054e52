-- ===== src/Pool/Tests.antt =====
-- Tests of the pool: two primary endpoints, one of them down, and a backup.
use diamond_bot_v.Base.{◌≡◌, refl, inl, true, false, none, [], ◌∷◌, arith, map, ◌==◌}
use diamond_bot_v.Pool.{
  EndpointInfo, new_info, PooledEndpoint, RpcConnectionPool, primary, backup, no_endpoint, pick,
  with_provider, get_provider, record_success, record_error, record_at, health_check_all,
  get_endpoints_info, add_endpoint, is_available,
}
use diamond_bot_v.Pool.Health.{succeeds, run, only_failure_revives}
use diamond_bot_v.Pool.Rotation.{IsReady}
use diamond_bot_v.Pool.Provider.{AreSet, get_provider-Fits}

abbrev broken : EndpointInfo
broken = record_error 5 (record_error 4 (new_info 1 0 10))

abbrev pooled : EndpointInfo → PooledEndpoint
pooled info = record { info = info; last_used = 0 }

abbrev pool : RpcConnectionPool
pool = record {
  primary_endpoints = pooled broken ∷ pooled (new_info 2 1 10) ∷ [];
  backup_endpoints = pooled (new_info 3 100 10) ∷ [];
  next_primary_index = 0;
  next_backup_index = 0;
  max_connections = 10;
  chain_id = 1;
}

pool-AreSet : AreSet pool
pool-AreSet = record { primary_index = inl (omega arith); backup_index = inl (omega arith) }

run-get_provider :
    ((get_provider 9 (λ i. true) (λ i. true) pool).0 ≡ primary 1)
    × ((get_provider 9 (λ i. i == 0) (λ i. true) pool).0 ≡ backup 0)
    × ((get_provider 9 (λ i. i == 0) (λ i. false) pool).0 ≡ no_endpoint)
unfolding pick
run-get_provider = (refl, refl, refl)

run-add_endpoint :
    (add_endpoint 9 true 3 true pool ≡ none) × (add_endpoint 9 false 4 true pool ≡ none)
run-add_endpoint = (refl, refl)

run-record_at :
    get_endpoints_info (record_at (record_error 9) 3 (health_check_all 8 (λ url. true) pool))
    ≡ record_success 8 broken
      ∷ record_success 8 (new_info 2 1 10)
      ∷ record_error 9 (record_success 8 (new_info 3 100 10))
      ∷ []
run-record_at = refl

-- The failure of an operation on endpoint 2 takes it down.
run-with_provider :
    map is_available
      (get_endpoints_info (with_provider 9 10 (λ i. true) (λ i. true) (λ url. false) pool).1)
    ≡ false ∷ false ∷ true ∷ []
unfolding pick
run-with_provider = refl

only_failure_revives_example :
    (is_available (run broken (succeeds 6 ∷ succeeds 7 ∷ succeeds 8 ∷ [])) ≡ false)
    × (is_available (record_error 9 (run broken (succeeds 6 ∷ succeeds 7 ∷ succeeds 8 ∷ [])))
        ≡ true)
only_failure_revives_example =
    only_failure_revives (succeeds 6 ∷ succeeds 7 ∷ succeeds 8 ∷ []) broken 9 refl tt

get_provider-Fits_example :
    IsReady (λ i. true) pool.primary_endpoints 1
    × AreSet (get_provider 9 (λ i. true) (λ i. true) pool).1
unfolding pick
get_provider-Fits_example = get_provider-Fits 9 (λ i. true) (λ i. true) pool pool-AreSet
