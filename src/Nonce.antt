-- ===== src/Nonce.antt =====
-- The nonces of transactions, `NonceManager` in snipebot/src/chain_adapters/nonce_manager.rs. The
-- answer of the node, `get_transaction_count`, is an argument of the calls that ask for it. The global
-- lock makes the calls run one after another; times and the cache's duration have one unit.
pub mod Steps
pub mod Order
pub mod Stale
mod Tests
use diamond_bot_v.Base.{
  ℕ, ◌+◌, ◌-◌, ◌^◌, Bool, true, false, not, ◌||◌, Option, none, some, List, [], ◌∷◌, ltb,
  if◌then◌else◌, Dict, lookup, insert, erase, is_some,
}

pub record NonceManager : Type 0 where
  pub nonces : Dict ℕ
  pub cache_duration : ℕ
  pub last_updates : Dict ℕ

-- A nonce; the node's error; or the panic of an overflow in `U256`, or of the `unwrap`.
pub data NonceResult : Type 0 where
  ok : ℕ → NonceResult
  unavailable panicked : NonceResult

abbrev pub new : ℕ → NonceManager
new cache_duration = record { nonces = []; cache_duration = cache_duration; last_updates = [] }

-- `time.elapsed() > self.cache_duration`, and the same where there is no time.
abbrev pub is_stale : ℕ → ℕ → Option ℕ → Bool
is_stale now cache_duration none = true
is_stale now cache_duration (some time) = ltb cache_duration (now - time)

abbrev pub needs_refresh : ℕ → ℕ → NonceManager → Bool
needs_refresh now address m =
    not (is_some (lookup address m.nonces))
    || is_stale now m.cache_duration (lookup address m.last_updates)

abbrev pub with_nonce : ℕ → ℕ → ℕ → NonceManager → NonceManager
with_nonce now address nonce m = record m {
  nonces = insert address nonce m.nonces;
  last_updates = insert address now m.last_updates;
}

-- The end of `get_next_nonce`: hand out the nonce that is there, and count it up.
abbrev pub hand_out : ℕ → Option ℕ → NonceManager → NonceResult × NonceManager
hand_out address none m = (panicked, m)
hand_out address (some nonce) m =
    if ltb (nonce + 1) (2 ^ 256)
    then (ok nonce, record m { nonces = insert address (nonce + 1) m.nonces })
    else (panicked, m)

-- `get_next_nonce`, where the nonce comes from the node.
abbrev pub refresh : ℕ → ℕ → Option ℕ → NonceManager → NonceResult × NonceManager
refresh now address none m = (unavailable, m)
refresh now address (some chain_nonce) m =
    let m' = with_nonce now address chain_nonce m in hand_out address (lookup address m'.nonces) m'

abbrev pub get_next_nonce : ℕ → ℕ → Option ℕ → NonceManager → NonceResult × NonceManager
get_next_nonce now address chain m =
    if needs_refresh now address m
    then refresh now address chain m
    else hand_out address (lookup address m.nonces) m

abbrev pub max : ℕ → ℕ → ℕ
max a b = if ltb a b then b else a

-- What `update_nonce` puts in place of what is cached.
abbrev pub updated : ℕ → Option ℕ → ℕ
updated new_nonce none = new_nonce
updated new_nonce (some nonce) = max nonce new_nonce

abbrev pub update_nonce : ℕ → ℕ → ℕ → NonceManager → NonceManager
update_nonce now address new_nonce m =
    with_nonce now address (updated new_nonce (lookup address m.nonces)) m

abbrev pub reset_nonce : ℕ → ℕ → Option ℕ → NonceManager → NonceResult × NonceManager
reset_nonce now address none m = (unavailable, m)
reset_nonce now address (some chain_nonce) m =
    (ok chain_nonce, with_nonce now address chain_nonce m)

abbrev pub has_cached_nonce : ℕ → NonceManager → Bool
has_cached_nonce address m = is_some (lookup address m.nonces)

abbrev pub expired_addresses : ℕ → ℕ → Dict ℕ → List ℕ
expired_addresses now cache_duration [] = []
expired_addresses now cache_duration ((address, time) ∷ d) =
    let rest = expired_addresses now cache_duration d in
    if ltb cache_duration (now - time) then address ∷ rest else rest

pub remove_all : List ℕ → NonceManager → NonceManager
remove_all [] m = m
remove_all (address ∷ addresses) m =
    remove_all addresses
      (record m { nonces = erase address m.nonces; last_updates = erase address m.last_updates })

abbrev pub cleanup_cache : ℕ → NonceManager → NonceManager
cleanup_cache now m = remove_all (expired_addresses now m.cache_duration m.last_updates) m
