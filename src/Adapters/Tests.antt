-- ===== src/Adapters/Tests.antt =====
-- Tests of the registries: the adapter 70 of a chain 7.
use diamond_bot_v.Base.{ℕ, ◌≡◌, refl, some, [], ◌∷◌}
use diamond_bot_v.Adapters.{
  ChainKind, AdapterRegistry, Registries, new, register, get_all_chain_names, get_all_adapters,
  get_ethereum, register_ethereum, get_bsc, register_bsc, get_avalanche, register_avalanche,
  get_base, register_base, get_arbitrum, register_arbitrum, get_optimism, register_optimism,
  get_polygon, register_polygon, get_monad, register_monad, get_custom, register_custom, ethereum,
}

abbrev empty : AdapterRegistry ℕ
empty = new

run-get :
    (get_ethereum 5 (register_ethereum 5 60 empty) ≡ some 60)
    × (get_bsc 5 (register_bsc 5 60 empty) ≡ some 60)
    × (get_avalanche 5 (register_avalanche 5 60 empty) ≡ some 60)
    × (get_base 5 (register_base 5 60 empty) ≡ some 60)
    × (get_arbitrum 5 (register_arbitrum 5 60 empty) ≡ some 60)
    × (get_optimism 5 (register_optimism 5 60 empty) ≡ some 60)
    × (get_polygon 5 (register_polygon 5 60 empty) ≡ some 60)
    × (get_monad 5 (register_monad 5 60 empty) ≡ some 60)
    × (get_custom 5 (register_custom 5 60 empty) ≡ some 60)
run-get = (refl, refl, refl, refl, refl, refl, refl, refl, refl)

run-get_all :
    (get_all_chain_names (register 5 60 empty) ≡ 5 ∷ [])
    × (get_all_adapters (register 5 60 empty) ≡ 60 ∷ [])
run-get_all = (refl, refl)

abbrev registries : Registries ℕ
registries = record { global = register 5 60 new; internal = new }

abbrev kind : ℕ → ChainKind
kind name = ethereum
