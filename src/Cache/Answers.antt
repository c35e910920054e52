-- ===== src/Cache/Answers.antt =====
-- What the cache answers.
use diamond_bot_v.Base.{
  ℕ, ◌+◌, ◌%◌, ◌^◌, ◌≤◌, ◌≡◌, refl, sym, ap, ◌∙◌, inl, inr, Bool, true, false, Option, none, some,
  List, [], ◌∷◌, arith, ltb, ◌==◌, if◌then◌else◌, Dict, lookup, insert, contains, HasDistinctKeys,
  erase-HasDistinctKeys, lookup-insert, lookup-erase, Bool-cases,
}
use diamond_bot_v.Cache.{
  BasicCache, Json, CacheResult, ok, full, is_expired, is_full, remove, len, remove_all,
  expired_keys, cleanup, decoded, get, store_at, set,
}
use diamond_bot_v.Cache.Bounds.{IsBounded}

contains-expired_keys :
    (now j : ℕ) (d : Dict ℕ)
    → HasDistinctKeys d
    → contains (expired_keys now d) j ≡ (elim (lookup j d) [ none ↦ false | some e ↦ ltb e now ])
contains-expired_keys now j [] h = refl
contains-expired_keys now j ((k, e) ∷ d) h = ground (arith, contains-expired_keys now j d h.1)

module _ {J : Type 0} where
  remove_all-entries :
      (j : ℕ) (keys : List ℕ) (c : BasicCache J)
      → HasDistinctKeys c.entries
      → lookup j (remove_all keys c).entries
        ≡ (if contains keys j then none else lookup j c.entries)
  unfolding remove_all
  remove_all-entries j [] c h = refl
  remove_all-entries j (k ∷ keys) c h = ground (
    arith,
    remove_all-entries j keys (remove k c) (erase-HasDistinctKeys k c.entries h),
    lookup-erase k j c.entries h,
  )

  remove_all-expirations :
      (j : ℕ) (keys : List ℕ) (c : BasicCache J)
      → HasDistinctKeys c.expirations
      → lookup j (remove_all keys c).expirations
        ≡ (if contains keys j then none else lookup j c.expirations)
  unfolding remove_all
  remove_all-expirations j [] c h = refl
  remove_all-expirations j (k ∷ keys) c h = ground (
    arith,
    remove_all-expirations j keys (remove k c) (erase-HasDistinctKeys k c.expirations h),
    lookup-erase k j c.expirations h,
  )

module _ {V J : Type 0} (json : Json V J) where
  -- The answer of `get`, from what the two maps have at the key.
  answer : ℕ → Option ℕ → Option J → CacheResult (Option V)
  answer t e o = if is_expired t e then ok none else decoded json o

  get-answer :
      (t j : ℕ) (c : BasicCache J)
      → (get json t j c).0 ≡ answer t (lookup j c.expirations) (lookup j c.entries)
  unfolding answer
  get-answer t j c = elim (Bool-cases (is_expired t (lookup j c.expirations))) [
    | inl e ↦ rw e refl
    | inr e ↦ rw e refl
  ]

  cleaned-answer :
      (now t : ℕ) (e : Option ℕ) (o : Option J) (b : Bool)
      → b ≡ (elim e [ none ↦ false | some x ↦ ltb x now ])
      → now ≤ t
      → answer t (if b then none else e) (if b then none else o) ≡ answer t e o
  unfolding answer
  cleaned-answer now t none o b h le = rw h refl
  cleaned-answer now t (some x) o true h le =
      let late : ltb x t ≡ true = ground arith in
      sym (ap (λ b. if b then ok none else decoded json o) late)
  cleaned-answer now t (some x) o false h le = refl

  cleanup-answer :
      (now t j : ℕ) (c : BasicCache J)
      → IsBounded c
      → now ≤ t
      → (get json t j (cleanup now c)).0 ≡ (get json t j c).0
  cleanup-answer now t j c x le =
      let keys = expired_keys now c.expirations in
      get-answer t j (cleanup now c)
      ∙ rw (remove_all-entries j keys c x.entries_once) (
          rw (remove_all-expirations j keys c x.expirations_once) (
            cleaned-answer now t (lookup j c.expirations) (lookup j c.entries) (contains keys j)
              (contains-expired_keys now j c.expirations x.expirations_once) le))
      ∙ sym (get-answer t j c)

  decoded-ok :
      (value : V) (text : J)
      → json.encode value ≡ some text
      → decoded json (some text) ≡ ok (some value)
  decoded-ok value text e =
      ap (λ o. elim o [ none ↦ CacheResult.undecodable | some v ↦ ok (some v) ])
        (json.decode-encode value text e)

  inserted-answer :
      (now key ttl t j : ℕ) (value : V) (text : J) (c : BasicCache J)
      → json.encode value ≡ some text
      → (get json t j (record c {
        entries = insert key text c.entries;
        expirations = insert key ((now + ttl) % 2 ^ 64) c.expirations;
      })).0
        ≡ (if key == j
            then (if ltb ((now + ttl) % 2 ^ 64) t then ok none else ok (some value))
            else (get json t j c).0)
  unfolding answer
  inserted-answer now key ttl t j value text c e =
      let n = (now + ttl) % 2 ^ 64 in
      get-answer t j
        (record c { entries = insert key text c.entries; expirations = insert key n c.expirations })
      ∙ rw (lookup-insert key j text c.entries) (
          rw (lookup-insert key j n c.expirations) (elim (Bool-cases (key == j)) [
            | inl q ↦ rw q (ap (λ d. if ltb n t then ok none else d) (decoded-ok value text e))
            | inr q ↦ rw q (sym (get-answer t j c))
          ]))

  store_at-answer :
      (now key ttl t j : ℕ) (value : V) (o : Option J) (c c' : BasicCache J)
      → json.encode value ≡ o
      → store_at json now key o ttl c ≡ (ok tt, c')
      → (get json t j c').0 ≡ (
          if key == j
          then (if ltb ((now + ttl) % 2 ^ 64) t then ok none else ok (some value))
          else (get json t j c).0)
  store_at-answer now key ttl t j value none c c' e h = absurd (ground arith)
  store_at-answer now key ttl t j value (some text) c c' e h =
      ap (λ y. (get json t j y.1).0) (sym h) ∙ inserted-answer now key ttl t j value text c e

  set_plain :
      (now key ttl : ℕ) (value : V) (c : BasicCache J)
      → is_full c ≡ false
      → set json now key value ttl c ≡ store_at json now key (json.encode value) ttl c
  set_plain now key ttl value c e = rw e refl

  set_cleaned :
      (now key ttl : ℕ) (value : V) (c : BasicCache J)
      → is_full c ≡ true
      → is_full (cleanup now c) ≡ false
      → set json now key value ttl c ≡ store_at json now key (json.encode value) ttl (cleanup now c)
  set_cleaned now key ttl value c e f = rw e (rw f refl)

  set_refused :
      (now key ttl : ℕ) (value : V) (c : BasicCache J)
      → is_full c ≡ true
      → is_full (cleanup now c) ≡ true
      → set json now key value ttl c ≡ (full, cleanup now c)
  set_refused now key ttl value c e f = rw e (rw f refl)

  cleanup_same :
      (now : ℕ) (c : BasicCache J) → expired_keys now c.expirations ≡ [] → cleanup now c ≡ c
  unfolding remove_all
  cleanup_same now c e = ap (λ keys. remove_all keys c) e

  -- A `set` that succeeds, on a cache whose maps are paired, is answered by `get` at any later time: its
  -- key has the value, until the expiry time has passed, and every other key has what it had, whether
  -- or not `set` had to clean up first.
  pub set-get :
      (now key ttl t j : ℕ) (value : V) (c c' : BasicCache J)
      → IsBounded c
      → now ≤ t
      → set json now key value ttl c ≡ (ok tt, c')
      → (get json t j c').0 ≡ (
          if key == j
          then (if ltb ((now + ttl) % 2 ^ 64) t then ok none else ok (some value))
          else (get json t j c).0)
  set-get now key ttl t j value c c' x le h = elim (Bool-cases (is_full c)) [
    | inl e ↦ elim (Bool-cases (is_full (cleanup now c))) [
      | inl f ↦
          absurd
            (ground (arith, ap (λ y. y.0) (set_refused now key ttl value c e f), ap (λ y. y.0) h))
      | inr f ↦
          store_at-answer now key ttl t j value (json.encode value) (cleanup now c) c' refl
            (sym (set_cleaned now key ttl value c e f) ∙ h)
          ∙ ap
              (λ a.
                if key == j
                then (if ltb ((now + ttl) % 2 ^ 64) t then ok none else ok (some value))
                else a)
              (cleanup-answer now t j c x le)
    ]
    | inr e ↦
        store_at-answer now key ttl t j value (json.encode value) c c' refl
          (sym (set_plain now key ttl value c e) ∙ h)
  ]

  unexpired-keys :
      (now : ℕ) (d : Dict ℕ)
      → HasDistinctKeys d
      → ((k e : ℕ) → lookup k d ≡ some e → now ≤ e)
      → expired_keys now d ≡ []
  unexpired-keys now [] u h = refl
  unexpired-keys now ((k, e) ∷ d) u h =
      let head : ltb e now ≡ false = ground (arith, h k e) in
      let tail = unexpired-keys now d u.1 (λ j x l. ground (arith, h j x, u.0)) in rw head tail

  -- A cache that is full of entries none of which has expired refuses every `set` and stays as it is:
  -- also one of a key that it has, whose new value would need no room.
  pub full_refuses :
      (now key ttl : ℕ) (value : V) (c : BasicCache J)
      → IsBounded c
      → c.config.max_size ≤ len c
      → ((k e : ℕ) → lookup k c.expirations ≡ some e → now ≤ e)
      → set json now key value ttl c ≡ (full, c)
  full_refuses now key ttl value c x m h =
      let none_gone = unexpired-keys now c.expirations x.expirations_once h in
      let same : cleanup now c ≡ c = cleanup_same now c none_gone in
      let is : is_full c ≡ true = ground arith in
      set_refused now key ttl value c is (ap is_full same ∙ is) ∙ ap (λ d. (full, d)) same
