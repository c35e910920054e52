-- ===== src/Adapters/Lookup.antt =====
-- Which registry a lookup reads.
use diamond_bot_v.Base.{
  ℕ, ◌≡◌, refl, ap, ◌∙◌, Option, none, some, List, [], ◌∷◌, lookup, lookup-insert_self,
}
use diamond_bot_v.Adapters.{
  ChainKind, ethereum, bsc, avalanche, base, arbitrum, optimism, polygon, monad, custom,
  AdapterRegistry, Registries, register, register_wrapped, get, get_chain_adapter, wrap_again,
  add_wallet_to_adapter, register_adapter,
}

pub data Call (A : Type 0) : Type 0 where
  registers : ℕ → A → Call A
  adds_wallet : ℕ → ℕ → Call A

module _ {A : Type 0} (kind : ℕ → ChainKind) where
  abbrev pub kept_or : Option (Registries A) → Registries A → Registries A
  kept_or none r = r
  kept_or (some r') r = r'

  abbrev pub call : Call A → Registries A → Registries A
  call (registers name adapter) r = register_adapter kind name adapter r
  call (adds_wallet name wallet) r = kept_or (add_wallet_to_adapter kind name wallet r) r

  abbrev pub run : Registries A → List (Call A) → Registries A
  run r [] = r
  run r (c ∷ cs) = run (call c r) cs

  register_wrapped-adapters :
      (k : ChainKind) (name : ℕ) (adapter : A) (r : AdapterRegistry A)
      → (register_wrapped k name adapter r).adapters ≡ r.adapters
  register_wrapped-adapters ethereum name adapter r = refl
  register_wrapped-adapters bsc name adapter r = refl
  register_wrapped-adapters avalanche name adapter r = refl
  register_wrapped-adapters base name adapter r = refl
  register_wrapped-adapters arbitrum name adapter r = refl
  register_wrapped-adapters optimism name adapter r = refl
  register_wrapped-adapters polygon name adapter r = refl
  register_wrapped-adapters monad name adapter r = refl
  register_wrapped-adapters custom name adapter r = refl

  wrap_again-adapters :
      (o : Option A) (name : ℕ) (r : Registries A)
      → (kept_or (wrap_again kind o name r) r).global.adapters ≡ r.global.adapters
  wrap_again-adapters none name r = refl
  wrap_again-adapters (some adapter) name r =
      register_wrapped-adapters (kind name) name adapter r.global

  call-adapters : (c : Call A) (r : Registries A) → (call c r).global.adapters ≡ r.global.adapters
  call-adapters (registers name adapter) r = refl
  call-adapters (adds_wallet name wallet) r = wrap_again-adapters (get name r.global) name r

  run-adapters :
      (cs : List (Call A)) (r : Registries A) → (run r cs).global.adapters ≡ r.global.adapters
  run-adapters [] r = refl
  run-adapters (c ∷ cs) r = run-adapters cs (call c r) ∙ call-adapters c r

  -- `register_adapter` puts an adapter where `get_chain_adapter` does not look: after it, and any calls
  -- of it and of `add_wallet_to_adapter` before, the internal registry has the adapter, and every name is
  -- answered as it was at the start.
  pub registered_not_found :
      (cs : List (Call A)) (name other : ℕ) (adapter : A) (r : Registries A)
      → (get name (register_adapter kind name adapter (run r cs)).internal ≡ some adapter)
        × (get_chain_adapter kind other (register_adapter kind name adapter (run r cs))
            ≡ get_chain_adapter kind other r)
  registered_not_found cs name other adapter r =
      let before = (run r cs).internal in
      (
        ap (lookup name)
              (register_wrapped-adapters (kind name) name adapter (register name adapter before))
            ∙ lookup-insert_self name adapter before.adapters,
        ap (lookup other) (run-adapters cs r),
      )
