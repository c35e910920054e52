-- ===== src/Chains/Tests.antt =====
-- Tests of the registry of chains, with numbers for the adapters.
use diamond_bot_v.Base.{ℕ, ◌≡◌, refl, true, none, some, List, [], ◌∷◌}
use diamond_bot_v.Chains.{
  ChainConfig, ChainRegistry, new, new_info, get_adapter, get_adapter_info, get_chain_config,
  get_watcher, get_supported_chains, get_all_adapter_info,
}
use diamond_bot_v.Chains.Records.{
  Call, registers, registers_watcher, configures, unregisters, checks, inits, run, IsMatched,
  run-new-IsMatched,
}

abbrev named : ChainConfig ℕ
named = record { chain_id = 56; name = 8; rest = 0 }

abbrev history : List (Call ℕ ℕ ℕ ℕ)
history =
    configures named
    ∷ inits 56 true
    ∷ registers 1 70
    ∷ registers 1 71
    ∷ checks 1 true
    ∷ registers_watcher 1 5
    ∷ unregisters 56
    ∷ []

abbrev after : ChainRegistry ℕ ℕ ℕ ℕ
after = run (λ n. n) (λ a. a) (λ c. 60) (new 3) history

run-history :
    (get_adapter 1 after ≡ some 70)
    × (get_adapter_info 1 after ≡ some (record (new_info 1 1 70) { successful_requests = 1 }))
    × (get_adapter 56 after ≡ none)
    × (get_chain_config 56 after ≡ some named)
    × (get_watcher 1 after ≡ some 5)
    × (get_supported_chains after ≡ 1 ∷ [])
run-history = (refl, refl, refl, refl, refl, refl)

run-get_all : get_all_adapter_info after ≡ record (new_info 1 1 70) { successful_requests = 1 } ∷ []
run-get_all = refl

run-new-IsMatched_example : IsMatched after
run-new-IsMatched_example = run-new-IsMatched (λ n. n) (λ a. a) (λ c. 60) 3 history
