-- ===== src/Chains/Records.antt =====
-- The adapters and what is recorded of them.
use diamond_bot_v.Base.{
  ℕ, ◌≡◌, refl, sym, ap, subst, ◌∙◌, inl, inr, Bool, true, false, Option, none, some, List, [], ◌∷◌,
  arith, Dict, lookup, insert, erase, is_some, HasDistinctKeys, insert-HasDistinctKeys,
  erase-HasDistinctKeys, lookup-insert, lookup-erase, Bool-cases, Option-cases,
}
use diamond_bot_v.Chains.{
  ChainAdapterInfo, ChainConfig, ChainRegistry, new, new_info, change_at, put_changed, init_from,
  checked, chain_name, register_adapter, register_watcher, add_chain_config, update_adapter_info,
  unregister_adapter, unregister_watcher, set_default_retry_policy, check_adapter_connection,
  init_adapter_from_config, get_adapter,
}

pub data Call (A W P R : Type 0) : Type 0 where
  registers : ℕ → A → Call A W P R
  registers_watcher : ℕ → W → Call A W P R
  configures : ChainConfig R → Call A W P R
  updates : ℕ → ChainAdapterInfo → Call A W P R
  unregisters unregisters_watcher : ℕ → Call A W P R
  sets_policy : P → Call A W P R
  checks inits : ℕ → Bool → Call A W P R

-- The two maps have the same keys, each once.
pub record IsMatched {A W P R : Type 0} (r : ChainRegistry A W P R) : Type 0 where
  pub adapters_once : HasDistinctKeys r.adapters
  pub info_once : HasDistinctKeys r.adapter_info
  pub agree : (k : ℕ) → is_some (lookup k r.adapters) ≡ is_some (lookup k r.adapter_info)

module _ {V : Type 0} where
  put_changed-HasDistinctKeys :
      (k : ℕ) (f : V → V) (o : Option V) (d : Dict V)
      → HasDistinctKeys d
      → HasDistinctKeys (put_changed k f o d)
  put_changed-HasDistinctKeys k f none d h = h
  put_changed-HasDistinctKeys k f (some v) d h = insert-HasDistinctKeys k (f v) d h

  is_some-put_changed :
      (k j : ℕ) (f : V → V) (o : Option V) (d : Dict V)
      → lookup k d ≡ o
      → is_some (lookup j (put_changed k f o d)) ≡ is_some (lookup j d)
  is_some-put_changed k j f none d e = refl
  is_some-put_changed k j f (some v) d e = ground (arith, lookup-insert k j (f v) d)

module _ {A W P R : Type 0} where
  abbrev pub kept_or :
      Option (ChainRegistry A W P R) → ChainRegistry A W P R → ChainRegistry A W P R
  kept_or none r = r
  kept_or (some r') r = r'

  -- A change of the record of one chain.
  changed-IsMatched :
      (k : ℕ) (f : ChainAdapterInfo → ChainAdapterInfo) (r r' : ChainRegistry A W P R)
      → r'.adapters ≡ r.adapters
      → r'.adapter_info ≡ change_at k f r.adapter_info
      → IsMatched r
      → IsMatched r'
  changed-IsMatched k f r r' a i x = record {
    adapters_once = subst HasDistinctKeys (sym a) x.adapters_once;
    info_once =
        subst HasDistinctKeys (sym i)
          (put_changed-HasDistinctKeys k f (lookup k r.adapter_info) r.adapter_info x.info_once);
    agree = λ j.
        ap (λ d. is_some (lookup j d)) a
        ∙ x.agree j
        ∙ sym (is_some-put_changed k j f (lookup k r.adapter_info) r.adapter_info refl)
        ∙ ap (λ d. is_some (lookup j d)) (sym i);
  }

  update-IsMatched :
      (k : ℕ) (info : ChainAdapterInfo) (r : ChainRegistry A W P R)
      → IsMatched r
      → IsMatched (kept_or (update_adapter_info k info r) r)
  update-IsMatched k info r x = elim (Option-cases (lookup k r.adapter_info)) [
    | inl e ↦ rw e x
    | inr (v, e) ↦ rw e (record {
      adapters_once = x.adapters_once;
      info_once = insert-HasDistinctKeys k info r.adapter_info x.info_once;
      agree = λ j. ground (arith, x.agree j, lookup-insert k j info r.adapter_info);
    })
  ]

  unregister-IsMatched :
      (k : ℕ) (r : ChainRegistry A W P R)
      → IsMatched r
      → IsMatched (kept_or (unregister_adapter k r) r)
  unregister-IsMatched k r x = elim (Option-cases (lookup k r.adapters)) [
    | inl e ↦ rw e x
    | inr (v, e) ↦ rw e (record {
      adapters_once = erase-HasDistinctKeys k r.adapters x.adapters_once;
      info_once = erase-HasDistinctKeys k r.adapter_info x.info_once;
      agree = λ j. ground (
        arith,
        x.agree j,
        lookup-erase k j r.adapters x.adapters_once,
        lookup-erase k j r.adapter_info x.info_once,
      );
    })
  ]

  check-IsMatched :
      (k : ℕ) (answers : Bool) (r : ChainRegistry A W P R)
      → IsMatched r
      → IsMatched (check_adapter_connection k answers r).1
  check-IsMatched k answers r x = elim (Bool-cases (is_some (get_adapter k r))) [
    | inl e ↦ rw e (
        changed-IsMatched k (checked answers) r
          (record r { adapter_info = change_at k (checked answers) r.adapter_info }) refl refl x)
    | inr e ↦ rw e x
  ]

  other_maps-IsMatched :
      (r r' : ChainRegistry A W P R)
      → r'.adapters ≡ r.adapters
      → r'.adapter_info ≡ r.adapter_info
      → IsMatched r
      → IsMatched r'
  other_maps-IsMatched r r' a i x = record {
    adapters_once = subst HasDistinctKeys (sym a) x.adapters_once;
    info_once = subst HasDistinctKeys (sym i) x.info_once;
    agree =
        λ j. ap (λ d. is_some (lookup j d)) a ∙ x.agree j ∙ ap (λ d. is_some (lookup j d)) (sym i);
  }

  watcher-IsMatched :
      (k : ℕ) (w : W) (r : ChainRegistry A W P R)
      → IsMatched r
      → IsMatched (kept_or (register_watcher k w r) r)
  watcher-IsMatched k w r x = elim (Bool-cases (is_some (lookup k r.watchers))) [
    | inl e ↦ rw e x
    | inr e ↦
        rw e (other_maps-IsMatched r (record r { watchers = insert k w r.watchers }) refl refl x)
  ]

  no_watcher-IsMatched :
      (k : ℕ) (r : ChainRegistry A W P R)
      → IsMatched r
      → IsMatched (kept_or (unregister_watcher k r) r)
  no_watcher-IsMatched k r x = elim (Bool-cases (is_some (lookup k r.watchers))) [
    | inl e ↦ rw e (other_maps-IsMatched r (record r { watchers = erase k r.watchers }) refl refl x)
    | inr e ↦ rw e x
  ]

module _ {A W P R : Type 0} (fallback : ℕ → ℕ) (get_type : A → ℕ)
    (placeholder : ChainConfig R → A) where
  register-IsMatched :
      (k : ℕ) (adapter : A) (r : ChainRegistry A W P R)
      → IsMatched r
      → IsMatched (kept_or (register_adapter fallback get_type placeholder k adapter r) r)
  register-IsMatched k adapter r x =
      let info =
        new_info k (chain_name (fallback k) (lookup k r.chain_configs)) (get_type adapter) in
      elim (Option-cases (lookup k r.adapters)) [
        | inl e ↦ rw e (record {
          adapters_once = insert-HasDistinctKeys k adapter r.adapters x.adapters_once;
          info_once = insert-HasDistinctKeys k info r.adapter_info x.info_once;
          agree = λ j. ground (
            arith,
            x.agree j,
            lookup-insert k j adapter r.adapters,
            lookup-insert k j info r.adapter_info,
          );
        })
        | inr (v, e) ↦ rw e x
      ]

  init-IsMatched :
      (o : Option (ChainConfig R)) (k : ℕ) (pooled : Bool) (r : ChainRegistry A W P R)
      → IsMatched r
      → IsMatched (kept_or (init_from fallback get_type placeholder o k pooled r) r)
  init-IsMatched none k pooled r x = x
  init-IsMatched (some config) k false r x = x
  init-IsMatched (some config) k true r x = register-IsMatched k (placeholder config) r x

  abbrev pub call : Call A W P R → ChainRegistry A W P R → ChainRegistry A W P R
  call (registers k adapter) r =
      kept_or (register_adapter fallback get_type placeholder k adapter r) r
  call (registers_watcher k w) r = kept_or (register_watcher k w r) r
  call (configures config) r = add_chain_config config r
  call (updates k info) r = kept_or (update_adapter_info k info r) r
  call (unregisters k) r = kept_or (unregister_adapter k r) r
  call (unregisters_watcher k) r = kept_or (unregister_watcher k r) r
  call (sets_policy policy) r = set_default_retry_policy policy r
  call (checks k answers) r = (check_adapter_connection k answers r).1
  call (inits k pooled) r =
      kept_or (init_adapter_from_config fallback get_type placeholder k pooled r) r

  abbrev pub run : ChainRegistry A W P R → List (Call A W P R) → ChainRegistry A W P R
  run r [] = r
  run r (c ∷ cs) = run (call c r) cs

  call-IsMatched :
      (c : Call A W P R) (r : ChainRegistry A W P R) → IsMatched r → IsMatched (call c r)
  call-IsMatched (registers k adapter) r x = register-IsMatched k adapter r x
  call-IsMatched (registers_watcher k w) r x = watcher-IsMatched k w r x
  call-IsMatched (configures config) r x =
      changed-IsMatched config.chain_id (λ i. record i { name = config.name }) r
        (add_chain_config config r) refl refl x
  call-IsMatched (updates k info) r x = update-IsMatched k info r x
  call-IsMatched (unregisters k) r x = unregister-IsMatched k r x
  call-IsMatched (unregisters_watcher k) r x = no_watcher-IsMatched k r x
  call-IsMatched (sets_policy policy) r x =
      other_maps-IsMatched r (set_default_retry_policy policy r) refl refl x
  call-IsMatched (checks k answers) r x = check-IsMatched k answers r x
  call-IsMatched (inits k pooled) r x = init-IsMatched (lookup k r.chain_configs) k pooled r x

  run-IsMatched :
      (r : ChainRegistry A W P R) (cs : List (Call A W P R)) → IsMatched r → IsMatched (run r cs)
  run-IsMatched r [] x = x
  run-IsMatched r (c ∷ cs) x = run-IsMatched (call c r) cs (call-IsMatched c r x)

  -- After any calls of a new registry, refused ones included, a chain has a record exactly if it has an
  -- adapter, and each chain stands once in both maps.
  pub run-new-IsMatched : (policy : P) (cs : List (Call A W P R)) → IsMatched (run (new policy) cs)
  run-new-IsMatched policy cs =
      run-IsMatched (new policy) cs
        (record { adapters_once = tt; info_once = tt; agree = λ k. refl })
