-- ===== src/Cache.antt =====
-- The cache in memory, `BasicCache` of common/src/cache.rs. The time, in seconds, is an argument of the
-- calls that read the clock; JSON encoding is a parameter; no thread panics while it holds a lock, so
-- that locks give no errors, and the calls come one after another.
pub mod Bounds
pub mod Answers
mod Tests
use diamond_bot_v.Base.{
  ℕ, ◌+◌, ◌%◌, ◌^◌, ◌≡◌, Bool, true, false, Option, none, some, List, [], ◌∷◌, ltb, leb,
  if◌then◌else◌, Dict, lookup, insert, erase, length,
}

pub record CacheConfig : Type 0 where
  pub default_ttl : ℕ
  pub max_size : ℕ
  pub cleanup_interval : ℕ

-- `CacheConfig::default()`
abbrev pub default_config : CacheConfig
default_config = record { default_ttl = 300; max_size = 10_000; cleanup_interval = 3_600 }

pub record BasicCache (J : Type 0) : Type 0 where
  pub entries : Dict J
  pub expirations : Dict ℕ
  pub config : CacheConfig

-- serde: what is encoded decodes to the same value.
pub record Json (V J : Type 0) : Type 0 where
  pub encode : V → Option J
  pub decode : J → Option V
  pub decode-encode : (v : V) (j : J) → encode v ≡ some j → decode j ≡ some v

pub data CacheResult (A : Type 0) : Type 0 where
  ok : A → CacheResult A
  undecodable unencodable full : CacheResult A

abbrev pub config_or_default : Option CacheConfig → CacheConfig
config_or_default none = default_config
config_or_default (some config) = config

-- What `expirations.get(&key)` tells of an entry, in `get` and in `cleanup`.
abbrev pub is_expired : ℕ → Option ℕ → Bool
is_expired now none = true
is_expired now (some expires_at) = ltb expires_at now

module _ {J : Type 0} where
  abbrev pub new : Option CacheConfig → BasicCache J
  new config = record { entries = []; expirations = []; config = config_or_default config }

  abbrev pub is_full : BasicCache J → Bool
  is_full c = leb c.config.max_size (length c.entries)

  abbrev pub remove : ℕ → BasicCache J → BasicCache J
  remove key c = record c { entries = erase key c.entries; expirations = erase key c.expirations }

  abbrev pub clear : BasicCache J → BasicCache J
  clear c = record c { entries = []; expirations = [] }

  abbrev pub len : BasicCache J → ℕ
  len c = length c.entries

  pub remove_all : List ℕ → BasicCache J → BasicCache J
  remove_all [] c = c
  remove_all (key ∷ keys) c = remove_all keys (remove key c)

abbrev pub expired_keys : ℕ → Dict ℕ → List ℕ
expired_keys now [] = []
expired_keys now ((key, expires_at) ∷ d) =
    let rest = expired_keys now d in if ltb expires_at now then key ∷ rest else rest

module _ {J : Type 0} where
  abbrev pub cleanup : ℕ → BasicCache J → BasicCache J
  cleanup now c = remove_all (expired_keys now c.expirations) c

module _ {V J : Type 0} (json : Json V J) where
  open json use {encode, decode}

  abbrev pub decoded : Option J → CacheResult (Option V)
  decoded none = ok none
  decoded (some text) = elim (decode text) [ none ↦ undecodable | some v ↦ ok (some v) ]

  abbrev pub get : ℕ → ℕ → BasicCache J → CacheResult (Option V) × BasicCache J
  get now key c =
      if is_expired now (lookup key c.expirations)
      then (ok none, remove key c)
      else (decoded (lookup key c.entries), c)

  -- `set`, once there is room.
  abbrev pub store_at : ℕ → ℕ → Option J → ℕ → BasicCache J → CacheResult (Unit {0}) × BasicCache J
  store_at now key none ttl_seconds c = (unencodable, c)
  store_at now key (some text) ttl_seconds c = (
    ok tt,
    record c {
      entries = insert key text c.entries;
      expirations = insert key ((now + ttl_seconds) % 2 ^ 64) c.expirations;
    },
  )

  abbrev pub set : ℕ → ℕ → V → ℕ → BasicCache J → CacheResult (Unit {0}) × BasicCache J
  set now key value ttl_seconds c =
      let cleaned = cleanup now c in
      if is_full c
      then (if is_full cleaned
          then (full, cleaned)
          else store_at now key (encode value) ttl_seconds cleaned)
      else store_at now key (encode value) ttl_seconds c
