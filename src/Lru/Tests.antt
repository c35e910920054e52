-- ===== src/Lru/Tests.antt =====
-- Tests of the bounded cache, over an `LruCache` that is its list.
use diamond_bot_v.Base.{
  ℕ, suc, zero, ◌≡◌, refl, none, some, [], ◌∷◌, arith, Dict, lookup, HasDistinctKeys,
}
use diamond_bot_v.Lru.{
  LruCrate, take, others, CacheConfig, default_config, BoundedCache, new, default_cache,
  update_config, remove, clear_all,
}
use diamond_bot_v.Lru.Resize.{onto, lookup-take, update_config_reverses}

module _ {D : Type 0} where
  lookup-others : (j k : ℕ) (d : Dict D) → lookup k d ≡ none → lookup k (others j d) ≡ none
  lookup-others j k [] h = refl
  lookup-others j k ((i, v) ∷ d) h = ground (arith, lookup-others j k d)

  lookup-others_self : (k : ℕ) (d : Dict D) → lookup k (others k d) ≡ none
  lookup-others_self k [] = refl
  lookup-others_self k ((i, v) ∷ d) = ground (arith, lookup-others_self k d)

  others-HasDistinctKeys : (k : ℕ) (d : Dict D) → HasDistinctKeys d → HasDistinctKeys (others k d)
  others-HasDistinctKeys k [] h = tt
  others-HasDistinctKeys k ((i, v) ∷ d) h =
      ground (arith, others-HasDistinctKeys k d h.1, lookup-others k i d h.0)

  take-HasDistinctKeys : (n : ℕ) (d : Dict D) → HasDistinctKeys d → HasDistinctKeys (take n d)
  take-HasDistinctKeys n [] h = tt
  take-HasDistinctKeys zero ((i, v) ∷ d) h = tt
  take-HasDistinctKeys (suc n) ((i, v) ∷ d) h =
      (lookup-take n i d h.0, take-HasDistinctKeys n d h.1)

record SampleCache : Type 0 where
  items : Dict ℕ
  size : ℕ
  once : HasDistinctKeys items

abbrev crate : LruCrate ℕ
crate = record {
  LruCache = SampleCache;
  empty = λ n. record { items = []; size = n; once = tt };
  put = λ k v l. record {
    items = take l.size ((k, v) ∷ others k l.items);
    size = l.size;
    once =
        take-HasDistinctKeys l.size ((k, v) ∷ others k l.items)
          (lookup-others_self k l.items, others-HasDistinctKeys k l.items l.once);
  };
  pop = λ k l. record {
    items = others k l.items;
    size = l.size;
    once = others-HasDistinctKeys k l.items l.once;
  };
  clear = λ l. record { items = []; size = l.size; once = tt };
  iter = λ l. l.items;
  cap = λ l. l.size;
  iter-HasDistinctKeys = λ l. l.once;
  iter-empty = λ n. refl;
  cap-empty = λ n. refl;
  iter-put = λ k v l. refl;
  cap-put = λ k v l. refl;
  iter-pop = λ k l. refl;
  iter-clear = λ l. refl;
}

abbrev config : ℕ → CacheConfig
config n = record (default_config 5) { capacity = some n }

abbrev three : BoundedCache crate
three = record {
  config = config 3;
  entries = record {
    items = (3, 30) ∷ (2, 20) ∷ (1, 10) ∷ [];
    size = 3;
    once = (refl, (refl, (refl, tt)));
  };
}

abbrev two : BoundedCache crate
two = elim (update_config crate (config 2) three) [ none ↦ three | some c ↦ c ]

run-update_config : crate.iter two.entries ≡ (1, 10) ∷ (2, 20) ∷ []
run-update_config = refl

run-new : new crate (config 0) ≡ none
run-new = refl

run-default_cache : default_cache crate 5 ≡ new crate (config 1_000)
run-default_cache = refl

run-remove :
    ((remove crate 2 three).entries.items ≡ (3, 30) ∷ (1, 10) ∷ [])
    × ((clear_all crate three).entries.items ≡ [])
run-remove = (refl, refl)

update_config_reverses_example :
    crate.iter two.entries ≡ take 2 (onto (crate.iter three.entries) [])
update_config_reverses_example =
    update_config_reverses crate 2 (config 2) three two refl (omega arith) refl
