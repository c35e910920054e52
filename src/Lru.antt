-- ===== src/Lru.antt =====
-- The cache of bounded size, `LRUCache` in common/cache.rs: its configuration, and the calls that do
-- not read the entries' bytes. The `LruCache` of the crate lru is a parameter: what its `iter` lists,
-- from the entry used last on, and what `put`, `pop` and `clear` do to that, as documented. No thread
-- panics while it holds a lock.
pub mod Resize
mod Tests
use diamond_bot_v.Base.{
  ℕ, suc, zero, ◌≡◌, Bool, true, false, Option, none, some, List, [], ◌∷◌, ◌==◌, if◌then◌else◌,
  Dict, lookup, HasDistinctKeys,
}

abbrev pub take : {A : Type 0} → ℕ → List A → List A
take n [] = []
take zero (x ∷ xs) = []
take (suc n) (x ∷ xs) = let rest = take n xs in x ∷ rest

abbrev pub others : {D : Type 0} → ℕ → Dict D → Dict D
others k [] = []
others k ((j, v) ∷ d) = let rest = others k d in if j == k then rest else (j, v) ∷ rest

pub record LruCrate (D : Type 0) : Type 1 where
  pub LruCache : Type 0
  pub empty : ℕ → LruCache
  pub put : ℕ → D → LruCache → LruCache
  pub pop : ℕ → LruCache → LruCache
  pub clear : LruCache → LruCache
  pub iter : LruCache → Dict D
  pub cap : LruCache → ℕ
  pub iter-HasDistinctKeys : (l : LruCache) → HasDistinctKeys (iter l)
  pub iter-empty : (n : ℕ) → iter (empty n) ≡ []
  pub cap-empty : (n : ℕ) → cap (empty n) ≡ n
  pub iter-put :
      (k : ℕ) (v : D) (l : LruCache) → iter (put k v l) ≡ take (cap l) ((k, v) ∷ others k (iter l))
  pub cap-put : (k : ℕ) (v : D) (l : LruCache) → cap (put k v l) ≡ cap l
  pub iter-pop : (k : ℕ) (l : LruCache) → iter (pop k l) ≡ others k (iter l)
  pub iter-clear : (l : LruCache) → iter (clear l) ≡ []

pub record CacheConfig : Type 0 where
  pub config_id : ℕ
  pub name : ℕ
  pub version : ℕ
  pub created_at : ℕ
  pub default_ttl : ℕ
  pub capacity : Option ℕ
  pub redis_url : Option ℕ
  pub redis_pool_size : Option ℕ

-- `CacheConfig::default()`, made at a time, with the names of its strings.
abbrev pub default_config : ℕ → CacheConfig
default_config now = record {
  config_id = 1;
  name = 2;
  version = 3;
  created_at = now;
  default_ttl = 3_600;
  capacity = none;
  redis_url = none;
  redis_pool_size = none;
}

abbrev pub capacity_or : ℕ → Option ℕ → ℕ
capacity_or n none = n
capacity_or n (some capacity) = capacity

module _ {D : Type 0} (crate : LruCrate D) where
  open crate use {LruCache, empty, put}

  pub record BoundedCache : Type 0 where
    pub config : CacheConfig
    pub entries : LruCache

  -- `NonZeroUsize::new(capacity)` and what follows.
  abbrev pub sized : CacheConfig → ℕ → Option BoundedCache
  sized config zero = none
  sized config (suc n) = some (record { config = config; entries = empty (suc n) })

  -- `LRUCache::new`
  abbrev pub new : CacheConfig → Option BoundedCache
  new config = sized config (capacity_or 1_000 config.capacity)

  abbrev pub with_capacity : ℕ → ℕ → Option BoundedCache
  with_capacity now capacity = new (record (default_config now) { capacity = some capacity })

  -- `LRUCache::default`
  abbrev pub default_cache : ℕ → Option BoundedCache
  default_cache now = with_capacity now 1_000

  abbrev pub put_all : Dict D → LruCache → LruCache
  put_all [] l = l
  put_all ((key, value) ∷ items) l = put_all items (put key value l)

  -- The entries in a cache of a new capacity, if it is not zero.
  abbrev pub resized : ℕ → LruCache → Option LruCache
  resized zero l = none
  resized (suc n) l = some (put_all (crate.iter l) (empty (suc n)))

  abbrev pub new_entries : Option ℕ → Option ℕ → LruCache → Option LruCache
  new_entries none current l = some l
  new_entries (some capacity) current l =
      if capacity == capacity_or 0 current then some l else resized capacity l

  abbrev pub update_config : CacheConfig → BoundedCache → Option BoundedCache
  update_config config c = elim (new_entries config.capacity c.config.capacity c.entries) [
    | none ↦ none
    | some entries ↦ some (record { config = config; entries = entries })
  ]

  abbrev pub remove : ℕ → BoundedCache → BoundedCache
  remove key c = record c { entries = crate.pop key c.entries }

  -- `LRUCache::clear`
  abbrev pub clear_all : BoundedCache → BoundedCache
  clear_all c = record c { entries = crate.clear c.entries }
