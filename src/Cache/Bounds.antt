-- ===== src/Cache/Bounds.antt =====
-- The entries of the cache have an expiry each, and there are never more of them than allowed.
use diamond_bot_v.Base.{
  ℕ, ◌+◌, ◌%◌, ◌^◌, ◌≤◌, ◌≡◌, refl, inl, inr, false, Option, none, some, List, [], ◌∷◌, arith, Dict,
  lookup, insert, erase, length, is_some, HasDistinctKeys, insert-HasDistinctKeys,
  erase-HasDistinctKeys, lookup-insert, lookup-erase, Bool-cases,
}
use diamond_bot_v.Cache.{
  CacheConfig, BasicCache, Json, is_expired, is_full, remove, clear, len, remove_all, expired_keys,
  cleanup, get, store_at, set, new,
}

module _ {J : Type 0} where
  length-insert : (k : ℕ) (v : J) (d : Dict J) → length (insert k v d) ≤ length d + 1
  length-insert k v [] = omega arith
  length-insert k v ((j, w) ∷ d) = ground (arith, length-insert k v d)

  length-erase : (k : ℕ) (d : Dict J) → length (erase k d) ≤ length d
  length-erase k [] = omega arith
  length-erase k ((j, w) ∷ d) = ground (arith, length-erase k d)

  -- The two maps have the same keys, each once, and the entries are within the bound.
  pub record IsBounded (c : BasicCache J) : Type 0 where
    pub entries_once : HasDistinctKeys c.entries
    pub expirations_once : HasDistinctKeys c.expirations
    pub paired : (k : ℕ) → is_some (lookup k c.entries) ≡ is_some (lookup k c.expirations)
    pub within : len c ≤ c.config.max_size

  pub remove-IsBounded : (key : ℕ) (c : BasicCache J) → IsBounded c → IsBounded (remove key c)
  remove-IsBounded key c x = record {
    entries_once = erase-HasDistinctKeys key c.entries x.entries_once;
    expirations_once = erase-HasDistinctKeys key c.expirations x.expirations_once;
    paired = λ k. ground (
      arith,
      x.paired k,
      lookup-erase key k c.entries x.entries_once,
      lookup-erase key k c.expirations x.expirations_once,
    );
    within = omega (arith, length-erase key c.entries, x.within);
  }

  pub remove_all-IsBounded :
      (keys : List ℕ) (c : BasicCache J) → IsBounded c → IsBounded (remove_all keys c)
  unfolding remove_all
  remove_all-IsBounded [] c x = x
  remove_all-IsBounded (key ∷ keys) c x =
      remove_all-IsBounded keys (remove key c) (remove-IsBounded key c x)

  remove_all-config : (keys : List ℕ) (c : BasicCache J) → (remove_all keys c).config ≡ c.config
  unfolding remove_all
  remove_all-config [] c = refl
  remove_all-config (key ∷ keys) c = remove_all-config keys (remove key c)

module _ {V J : Type 0} (json : Json V J) where
  store_at-IsBounded :
      (now key ttl : ℕ) (o : Option J) (c : BasicCache J)
      → IsBounded c
      → is_full c ≡ false
      → IsBounded (store_at json now key o ttl c).1
  store_at-IsBounded now key ttl none c x r = x
  store_at-IsBounded now key ttl (some text) c x r = record {
    entries_once = insert-HasDistinctKeys key text c.entries x.entries_once;
    expirations_once =
        insert-HasDistinctKeys key ((now + ttl) % 2 ^ 64) c.expirations x.expirations_once;
    paired = λ k. ground (
      arith,
      x.paired k,
      lookup-insert key k text c.entries,
      lookup-insert key k ((now + ttl) % 2 ^ 64) c.expirations,
    );
    within = ground (arith, length-insert key text c.entries);
  }

  set-IsBounded :
      (now key ttl : ℕ) (value : V) (c : BasicCache J)
      → IsBounded c
      → IsBounded (set json now key value ttl c).1
  set-IsBounded now key ttl value c x =
      let y = remove_all-IsBounded (expired_keys now c.expirations) c x in
      elim (Bool-cases (is_full c)) [
        | inl e ↦ elim (Bool-cases (is_full (cleanup now c))) [
          | inl f ↦ rw e (rw f y)
          | inr f ↦
              rw e (rw f (store_at-IsBounded now key ttl (json.encode value) (cleanup now c) y f))
        ]
        | inr e ↦ rw e (store_at-IsBounded now key ttl (json.encode value) c x e)
      ]

  get-IsBounded : (now key : ℕ) (c : BasicCache J) → IsBounded c → IsBounded (get json now key c).1
  get-IsBounded now key c x = elim (Bool-cases (is_expired now (lookup key c.expirations))) [
    | inl e ↦ rw e (remove-IsBounded key c x)
    | inr e ↦ rw e x
  ]

  pub data Call : Type 0 where
    gets : ℕ → ℕ → Call
    sets : ℕ → ℕ → V → ℕ → Call
    removes : ℕ → Call
    cleans : ℕ → Call
    clears : Call

  abbrev pub call : Call → BasicCache J → BasicCache J
  call (gets now key) c = (get json now key c).1
  call (sets now key value ttl) c = (set json now key value ttl c).1
  call (removes key) c = remove key c
  call (cleans now) c = cleanup now c
  call clears c = clear c

  unfoldable pub run : BasicCache J → List Call → BasicCache J
  run c [] = c
  run c (x ∷ xs) = run (call x c) xs

  call-IsBounded : (x : Call) (c : BasicCache J) → IsBounded c → IsBounded (call x c)
  call-IsBounded (gets now key) c b = get-IsBounded now key c b
  call-IsBounded (sets now key value ttl) c b = set-IsBounded now key ttl value c b
  call-IsBounded (removes key) c b = remove-IsBounded key c b
  call-IsBounded (cleans now) c b = remove_all-IsBounded (expired_keys now c.expirations) c b
  call-IsBounded clears c b = record {
    entries_once = tt;
    expirations_once = tt;
    paired = λ k. refl;
    within = omega arith;
  }

  run-IsBounded : (c : BasicCache J) (xs : List Call) → IsBounded c → IsBounded (run c xs)
  unfolding run
  run-IsBounded c [] b = b
  run-IsBounded c (x ∷ xs) b = run-IsBounded (call x c) xs (call-IsBounded x c b)

  -- After any calls of a new cache at any times, its entries and its expiry times have the same keys,
  -- each of them once, and there are no more entries than the configured maximum.
  pub run-new-IsBounded :
      (config : Option CacheConfig) (xs : List Call) → IsBounded (run (new config) xs)
  run-new-IsBounded config xs = run-IsBounded (new config) xs (record {
    entries_once = tt;
    expirations_once = tt;
    paired = λ k. refl;
    within = omega arith;
  })
