-- ===== src/Cache/Tests.antt =====
-- Tests of the cache, with room for two entries and an encoding that adds one.
use diamond_bot_v.Base.{ℕ, ◌+◌, ◌-◌, ◌≡◌, refl, Option, none, some, List, [], ◌∷◌, arith}
use diamond_bot_v.Cache.{CacheConfig, BasicCache, Json, ok, get, set, new, len, clear, remove_all}
use diamond_bot_v.Cache.Bounds.{IsBounded, Call, gets, sets, run, run-new-IsBounded}
use diamond_bot_v.Cache.Answers.{set-get}

abbrev json : Json ℕ ℕ
json = record {
  encode = λ v. some (v + 1);
  decode = λ j. some (j - 1);
  decode-encode = λ v j h. ground arith;
}

abbrev config : Option CacheConfig
config = some (record { default_ttl = 300; max_size = 2; cleanup_interval = 3_600 })

abbrev history : List (Call {V = ℕ} json)
history = sets 10 1 70 5 ∷ sets 11 2 80 100 ∷ sets 12 3 90 100 ∷ sets 20 4 60 100 ∷ gets 21 2 ∷ []

abbrev after : BasicCache ℕ
after = run json (new config) history

run-history : (get json 22 4 after).0 ≡ ok (some 60)
unfolding run remove_all
run-history = refl

-- The third entry was refused.
run-refused : (get json 22 3 after).0 ≡ ok none
unfolding run remove_all
run-refused = refl

run-clear : len (clear after) ≡ 0
run-clear = refl

run-new-IsBounded_example : IsBounded after
run-new-IsBounded_example = run-new-IsBounded json config history

set_after : set json 200 4 61 50 after ≡ (ok tt, (set json 200 4 61 50 after).1)
unfolding run remove_all
set_after = refl

set-get_example : (get json 240 4 (set json 200 4 61 50 after).1).0 ≡ ok (some 61)
set-get_example =
    set-get json 200 4 50 240 4 61 after (set json 200 4 61 50 after).1 run-new-IsBounded_example
      (omega arith) set_after

abbrev full_cache : BasicCache ℕ
full_cache = record {
  entries = (1, 71) ∷ (2, 81) ∷ [];
  expirations = (1, 510) ∷ (2, 511) ∷ [];
  config = record { default_ttl = 300; max_size = 2; cleanup_interval = 3_600 };
}

full_cache-IsBounded : IsBounded full_cache
unfolding run remove_all
full_cache-IsBounded = run-new-IsBounded json config (sets 10 1 70 500 ∷ sets 11 2 80 500 ∷ [])
