-- ===== src/Token/Tests.antt =====
-- Tests of the token contract over a small ledger.
use diamond_bot_v.Base.{ℕ, ◌+◌, ◌≡◌, refl, true, none, some, List, [], ◌∷◌, arith, Dict}
use diamond_bot_v.Near.{panic, only_owner, module_not_found, Env, ok}
use diamond_bot_v.Sample.{by}
use diamond_bot_v.Sample.Ledger.{Ledger, ledger}
use diamond_bot_v.Bridge.{LayerZeroParams, ChainConfig, LzSend, lz_send}
use diamond_bot_v.Supply
use diamond_bot_v.Supply.{
  get_total_circulating_supply, total_from, ChainSupply, SupplyTracker, chain_supply,
  update_chain_supply, get_chain_supply, get_total_circulating_supply, total_from,
}
use diamond_bot_v.Modules
use diamond_bot_v.Token.{
  dmd_metadata, DiamondToken, new, mint, burn, bridge_out, bridge_in, check_caps, write_near,
  update_near, fee_for, estimate_bridge_fee, initial_supply, max_supply_const,
}
use diamond_bot_v.Token.Settings.{
  ft_metadata, get_max_supply, get_owner, get_global_circulating_supply,
  get_near_circulating_supply, get_chain_config, get_chain_supplies, call_module_function,
  get_active_modules,
}
use diamond_bot_v.Ft.{transfers_and_calls, unregisters_storage}
use diamond_bot_v.Token.Calls.{
  calls_standard, Call, mints, burns, bridges_out, bridges_in, sets_chain_config, call, run,
}
use diamond_bot_v.Token.Cap.{IsCapped, run-new-IsCapped}
use diamond_bot_v.Token.Access.{IsOwned, run-new-IsOwned}
use diamond_bot_v.Token.Flow.{credited, debited, run-new-total}
use diamond_bot_v.Token.Tracking.{IsSynced, mint-IsSynced, bridge_round_trip}
use diamond_bot_v.Token.Foreign.{foreign_call_untracked}

-- Chain 2, at 25 basis points, with account 6 as its oracle.
abbrev bsc : ChainConfig
bsc = record {
  remote_chain_id = 2;
  remote_bridge_address = "0xb";
  chain_name = "BSC";
  enabled = true;
  fee_basis_points = 25;
  min_fee = 1;
  max_fee = 100;
  supply_oracle = some 6;
}

abbrev wallets : ℕ → ℕ → Ledger
wallets owner holder = record { balances = (9, owner) ∷ (1, holder) ∷ []; total = owner + holder }

abbrev tracked : ℕ → ℕ → Dict ChainSupply
tracked supply time = (1, chain_supply (by 9 time) 1 "NEAR Protocol" supply) ∷ []

-- The token of owner 9 with chain 2 configured and endpoint 7.
abbrev coin : Ledger → Dict ChainSupply → ℕ → DiamondToken Ledger
coin l supplies now = record {
  metadata = some (dmd_metadata "ft-1.0.0");
  token = l;
  owner_id = 9;
  max_supply = max_supply_const;
  chain_configs = (2, bsc) ∷ [];
  lz_endpoint = 7;
  supply_tracker = record (Supply.new 1 max_supply_const 9) { supplies = supplies };
  near_chain_id = 1;
  module_manager = Modules.new 9 none;
  last_update = now;
}

abbrev deployed : Dict ChainSupply → DiamondToken Ledger
deployed supplies =
    record (coin (record { balances = (9, initial_supply) ∷ []; total = initial_supply }) supplies
      0) { chain_configs = [] }

abbrev lz : LayerZeroParams
lz = record { dest_chain_id = 2; adapter_params = []; fees = 3 }

abbrev history : List (Env × Call)
history =
    (by 9 1, sets_chain_config 2 bsc)
    ∷ (by 9 2, bridges_out "0xa" 1000 lz)
    ∷ (by 7 3, bridges_in 2 "0xa" 1 400)
    ∷ (by 1 4, burns 100)
    ∷ (by 1 5, mints 1 5)
    ∷ (by 9 6, mints 9 900_000_000_000_000_000_000_000_000)
    ∷ (by 9 7, calls_standard (transfers_and_calls 1 10 none "stake"))
    ∷ (by 1 8, calls_standard (unregisters_storage true))
    ∷ []

run-new-IsCapped_example :
    IsCapped ledger (run ledger (deployed (tracked initial_supply 0)) history)
unfolding new Supply.new update_chain_supply
run-new-IsCapped_example =
    run-new-IsCapped ledger (by 9 0) 9 7 1 (deployed (tracked initial_supply 0)) history refl

run-new-IsOwned_example : IsOwned (run ledger (deployed (tracked initial_supply 0)) history)
unfolding new Supply.new update_chain_supply
run-new-IsOwned_example =
    run-new-IsOwned ledger (by 9 0) 9 7 1 (deployed (tracked initial_supply 0)) history refl

foreign_call_untracked_example :
    (coin (wallets 500 150) (tracked 700 0) 4).supply_tracker
    ≡ (coin (wallets 500 200) (tracked 700 0) 0).supply_tracker
unfolding call burn update_near write_near update_chain_supply get_chain_supply Supply.new
foreign_call_untracked_example =
    foreign_call_untracked ledger (by 1 4) (burns 50) (coin (wallets 500 200) (tracked 700 0) 0)
      (coin (wallets 500 150) (tracked 700 0) 4) (omega arith) refl

mint-IsSynced_example :
    IsSynced ledger (coin (wallets 500 250) (tracked 750 4) 4) × (750 ≡ 700 + 50)
unfolding mint check_caps get_total_circulating_supply total_from update_near write_near
    update_chain_supply get_chain_supply Supply.new
mint-IsSynced_example =
    mint-IsSynced ledger (by 9 4) 1 50 (coin (wallets 500 200) (tracked 700 0) 0)
      (coin (wallets 500 250) (tracked 750 4) 4)
      (chain_supply (by 9 0) 1 "NEAR Protocol" 700, refl, refl, refl) refl

bridge_round_trip_example :
    ((wallets 600 100).total ≡ (wallets 500 200).total) × (100 + 100 ≡ 200) × (600 ≡ 500 + 100)
unfolding bridge_out bridge_in fee_for estimate_bridge_fee check_caps get_total_circulating_supply
    total_from update_near write_near update_chain_supply get_chain_supply Supply.new
bridge_round_trip_example =
    bridge_round_trip ledger (by 1 4) (by 7 5) "0xa" "0xa" 100 2 lz 9
      (coin (wallets 500 200) (tracked 700 0) 0) (coin (wallets 500 100) (tracked 700 0) 0)
      (coin (wallets 600 100) (tracked 700 0) 0) refl refl

abbrev sent : LzSend
sent = lz_send 7 2 "0xb" (record { from = 1; to = "0xa"; amount = 100 }) 1 [] 3

run-views :
    let t = coin (wallets 500 200) (tracked 700 0) 0 in
    (get_max_supply t ≡ max_supply_const)
    × (get_owner t ≡ 9)
    × (ft_metadata t ≡ ok (dmd_metadata "ft-1.0.0"))
    × (get_global_circulating_supply t ≡ ok 700)
    × (get_near_circulating_supply t ≡ 700)
    × (get_chain_config 2 t ≡ some bsc)
    × (get_chain_supplies t ≡ (1, "NEAR Protocol", 700) ∷ [])
    × (call_module_function (by 1 0) 1 2 "{}" t ≡ panic only_owner)
    × (call_module_function (by 9 0) 1 2 "{}" t ≡ panic module_not_found)
    × (get_active_modules t ≡ ok [])
unfolding ft_metadata get_max_supply get_owner get_global_circulating_supply
    get_near_circulating_supply get_chain_config get_chain_supplies call_module_function
    get_active_modules get_total_circulating_supply total_from get_chain_supply
    Supply.get_all_chain_supplies Supply.new Modules.new Modules.call_module_function
    Modules.assert_admin Modules.is_admin Modules.get_active_modules Modules.active_at
run-views = (refl, refl, refl, refl, refl, refl, refl, refl, refl, refl)

run-new-total_example :
    (run ledger (deployed (tracked initial_supply 0)) history).token.total
      + debited ledger (deployed (tracked initial_supply 0)) history
    ≡ initial_supply + credited ledger (deployed (tracked initial_supply 0)) history
unfolding new Supply.new update_chain_supply
run-new-total_example =
    run-new-total ledger (by 9 0) 9 7 1 (deployed (tracked initial_supply 0)) history refl
