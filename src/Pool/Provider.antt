-- ===== src/Pool/Provider.antt =====
-- What `get_provider` gives.
use diamond_bot_v.Base.{ℕ, ◌≡◌, refl, Bool, Option, none, some, List, length}
use diamond_bot_v.Pool.{
  PooledEndpoint, RpcConnectionPool, use_at, pick, Choice, primary, backup, no_endpoint,
  take_backup, take_primary, get_provider,
}
use diamond_bot_v.Pool.Rotation.{
  IsReady, IsPlaced, pick-IsReady, pick-all, pick-IsPlaced, length-use_at,
}

-- What a choice says of the pool: a ready primary endpoint; a ready backup one, where no primary one is
-- ready; or that none is ready.
abbrev pub Fits : (ℕ → Bool) → (ℕ → Bool) → RpcConnectionPool → Choice → Type 0
Fits permits backup_permits pool (primary i) = IsReady permits pool.primary_endpoints i
Fits permits backup_permits pool (backup i) =
    IsReady backup_permits pool.backup_endpoints i
    × ((j : ℕ) → IsReady permits pool.primary_endpoints j → ⊥)
Fits permits backup_permits pool no_endpoint =
    ((j : ℕ) → IsReady permits pool.primary_endpoints j → ⊥)
    × ((j : ℕ) → IsReady backup_permits pool.backup_endpoints j → ⊥)

take_backup-Fits :
    (now next : ℕ) (permits backup_permits : ℕ → Bool) (pool : RpcConnectionPool) (r : Option ℕ × ℕ)
    → pick
        (length pool.backup_endpoints)
        backup_permits
        pool.backup_endpoints
        pool.next_backup_index
      ≡ r
    → IsPlaced pool.next_backup_index pool.backup_endpoints
    → ((j : ℕ) → IsReady permits pool.primary_endpoints j → ⊥)
    → Fits permits backup_permits pool
        (take_backup now r (record pool { next_primary_index = next })).0
take_backup-Fits now next permits backup_permits pool (none, after) e p never =
    (never, λ j. pick-all backup_permits pool.backup_endpoints pool.next_backup_index after j e p)
take_backup-Fits now next permits backup_permits pool (some i, after) e p never = (
  pick-IsReady (length pool.backup_endpoints) backup_permits pool.backup_endpoints
      pool.next_backup_index i after e,
  never,
)

take_primary-Fits :
    (now : ℕ) (permits backup_permits : ℕ → Bool) (pool : RpcConnectionPool) (r : Option ℕ × ℕ)
    → pick (length pool.primary_endpoints) permits pool.primary_endpoints pool.next_primary_index
      ≡ r
    → IsPlaced pool.next_primary_index pool.primary_endpoints
    → IsPlaced pool.next_backup_index pool.backup_endpoints
    → Fits permits backup_permits pool (take_primary now backup_permits r pool).0
take_primary-Fits now permits backup_permits pool (none, after) e p q =
    take_backup-Fits now after permits backup_permits pool
      (pick (length pool.backup_endpoints) backup_permits pool.backup_endpoints
        pool.next_backup_index)
      refl q (λ j. pick-all permits pool.primary_endpoints pool.next_primary_index after j e p)
take_primary-Fits now permits backup_permits pool (some i, after) e p q =
    pick-IsReady (length pool.primary_endpoints) permits pool.primary_endpoints
      pool.next_primary_index i after e

-- Both indices are within their lists.
pub record AreSet (pool : RpcConnectionPool) : Type 0 where
  pub primary_index : IsPlaced pool.next_primary_index pool.primary_endpoints
  pub backup_index : IsPlaced pool.next_backup_index pool.backup_endpoints

take_backup-AreSet :
    (now : ℕ) (r : Option ℕ × ℕ) (pool : RpcConnectionPool)
    → ((es : List PooledEndpoint) → length es ≡ length pool.backup_endpoints → IsPlaced r.1 es)
    → AreSet pool
    → AreSet (take_backup now r pool).1
take_backup-AreSet now (none, next) pool f x = record {
  primary_index = x.primary_index;
  backup_index = f pool.backup_endpoints refl;
}
take_backup-AreSet now (some i, next) pool f x = record {
  primary_index = x.primary_index;
  backup_index = f (use_at now i pool.backup_endpoints) (length-use_at now i pool.backup_endpoints);
}

take_primary-AreSet :
    (now : ℕ) (permits : ℕ → Bool) (r : Option ℕ × ℕ) (pool : RpcConnectionPool)
    → ((es : List PooledEndpoint) → length es ≡ length pool.primary_endpoints → IsPlaced r.1 es)
    → AreSet pool
    → AreSet (take_primary now permits r pool).1
take_primary-AreSet now permits (none, next) pool f x =
    let moved : RpcConnectionPool = record pool { next_primary_index = next } in
    take_backup-AreSet now
      (pick (length pool.backup_endpoints) permits pool.backup_endpoints pool.next_backup_index)
      moved
      (λ es e.
        pick-IsPlaced permits pool.backup_endpoints es pool.next_backup_index e x.backup_index)
      (record { primary_index = f pool.primary_endpoints refl; backup_index = x.backup_index })
take_primary-AreSet now permits (some i, next) pool f x = record {
  primary_index =
      f (use_at now i pool.primary_endpoints) (length-use_at now i pool.primary_endpoints);
  backup_index = x.backup_index;
}

-- With its indices within their lists, `get_provider` gives an endpoint that is available and grants a
-- permit: a primary one if there is any, wherever the round robin starts; else a backup one if there is
-- any; and an error only if there is none at all. The indices are within their lists again.
pub get_provider-Fits :
    (now : ℕ) (permits backup_permits : ℕ → Bool) (pool : RpcConnectionPool)
    → AreSet pool
    → Fits permits backup_permits pool (get_provider now permits backup_permits pool).0
      × AreSet (get_provider now permits backup_permits pool).1
get_provider-Fits now permits backup_permits pool x =
    let es = pool.primary_endpoints in
    let r = pick (length es) permits es pool.next_primary_index in
    (
      take_primary-Fits now permits backup_permits pool r refl x.primary_index x.backup_index,
      take_primary-AreSet now backup_permits r pool
          (λ es' e. pick-IsPlaced permits es es' pool.next_primary_index e x.primary_index) x,
    )
