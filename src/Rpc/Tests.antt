-- ===== src/Rpc/Tests.antt =====
-- Tests of the calls that are tried again.
use diamond_bot_v.Base.{
  ℕ, ◌-◌, ◌*◌, ◌^◌, ◌≡◌, ◌⊎◌, refl, Bool, true, false, Option, some, [], ◌∷◌, ltb, ◌==◌,
  if◌then◌else◌, arith,
}
use diamond_bot_v.Texts.{Text, codes, has, starts_with}
use diamond_bot_v.Rpc.Errors.{
  classify, from_provider_error, ens_error, invalid_nonce, low_gas, other, names_connection,
}
use diamond_bot_v.Rpc.Retrying.{
  Reply, ok, err, Trace, returned, failed, retry_loop, retry_blockchain_operation,
}
use diamond_bot_v.Rpc.Rotation.{with_rpc_rotation, try_backups}
use diamond_bot_v.Rpc.Pool.{
  RpcPool, new, get_best_url, sorted, insert_sorted, first_available, mark, mark_unavailable,
  all_urls, first_url,
}
use diamond_bot_v.Rpc.Attempts.{IsBounded, retry_blockchain_operation-Ends}
use diamond_bot_v.Rpc.Backups.{IsFirstAnswer, AllFail, rotation_finds_first}
use diamond_bot_v.Rpc.Fastest.{IsFastest, NoneAnswers, get_best_url-IsFastest}

classified :
    (classify (codes "nonce too low") ≡ invalid_nonce (codes "nonce too low"))
    × (classify (codes "gas price timeout") ≡ low_gas (codes "gas price timeout"))
    × (from_provider_error (ens_error (codes "nonce")) ≡ other (codes "nonce"))
unfolding classify has starts_with
classified = (refl, refl, refl)

abbrev underpriced : Text
underpriced = codes "underpriced"

-- Fails twice for its gas price.
abbrev third_time : ℕ → Option ℕ → Reply ℕ
third_time n price = if ltb n 2 then err underpriced else ok 7

retried :
    retry_blockchain_operation third_time (some 1_000) 5
    ≡ some (record {
      prices = some 1_000 ∷ some 1_200 ∷ some 1_440 ∷ [];
      waits = 500 ∷ 2_000 ∷ [];
      outcome = returned 7;
    })
unfolding retry_loop classify has starts_with
retried = refl

given_up :
    retry_blockchain_operation third_time (some 1_000) 2
    ≡ some (record {
      prices = some 1_000 ∷ some 1_200 ∷ [];
      waits = 500 ∷ [];
      outcome = failed (low_gas underpriced);
    })
unfolding retry_loop classify has starts_with
given_up = refl

abbrev second_backup : ℕ → Reply ℕ
second_backup url = if url == 3 then ok 30 else err (codes "timeout")

rotated : with_rpc_rotation second_backup 1 (2 ∷ 3 ∷ 4 ∷ []) ≡ ok 30
unfolding try_backups has starts_with
rotated = refl

abbrev probe : ℕ → Bool × ℕ
probe url = if url == 2 then (false, 1) else (true, 100 - url)

abbrev pool : RpcPool
pool = new (4_000 * 10 ^ 9) ((1, 5) ∷ (2, 5) ∷ (3, 5) ∷ [])

best : (get_best_url (4_000 * 10 ^ 9) (4_000 * 10 ^ 9) probe pool).0 ≡ some 3
unfolding sorted insert_sorted first_available
best = refl

abbrev checked : RpcPool
checked = record pool {
  last_checked = 4_000 * 10 ^ 9;
  availability =
      record { url = 3; is_available = true; latency = 97 }
      ∷ record { url = 1; is_available = true; latency = 99 }
      ∷ record { url = 2; is_available = false; latency = 1 }
      ∷ [];
}

next_best :
    (get_best_url (4_100 * 10 ^ 9) (4_100 * 10 ^ 9) probe (mark_unavailable 3 checked)).0 ≡ some 1
unfolding mark first_available
next_best = refl

retry_blockchain_operation-Ends_example :
    (t : Trace ℕ) × (retry_blockchain_operation third_time (some 1_000) 0 ≡ some t)
    × IsBounded 3 (some 1_000) t
retry_blockchain_operation-Ends_example = retry_blockchain_operation-Ends third_time (some 1_000) 0

is_timeout : names_connection (codes "timeout") ≡ true
unfolding has starts_with
is_timeout = refl

get_best_url-IsFastest_example :
    ((u : ℕ) × ((get_best_url (4_000 * 10 ^ 9) (4_000 * 10 ^ 9) probe pool).0 ≡ some u)
      × IsFastest probe u (all_urls pool))
    ⊎ (((get_best_url (4_000 * 10 ^ 9) (4_000 * 10 ^ 9) probe pool).0 ≡ first_url pool.urls)
        × NoneAnswers probe (all_urls pool))
get_best_url-IsFastest_example =
    get_best_url-IsFastest probe (4_000 * 10 ^ 9) (4_000 * 10 ^ 9) pool (omega arith)

rotation_finds_first_example :
    ((t : ℕ) × (with_rpc_rotation second_backup 1 (2 ∷ 3 ∷ 4 ∷ []) ≡ ok t)
      × IsFirstAnswer second_backup (2 ∷ 3 ∷ 4 ∷ []) t)
    ⊎ ((with_rpc_rotation second_backup 1 (2 ∷ 3 ∷ 4 ∷ []) ≡ err (codes "timeout"))
        × AllFail second_backup (2 ∷ 3 ∷ 4 ∷ []))
unfolding has starts_with
rotation_finds_first_example =
    rotation_finds_first second_backup 1 (2 ∷ 3 ∷ 4 ∷ []) (codes "timeout") refl refl
