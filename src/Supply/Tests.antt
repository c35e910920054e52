-- ===== src/Supply/Tests.antt =====
-- Tests of the supply tracker.
use diamond_bot_v.Base.{map, ◌≡◌, refl, true, [], ◌∷◌}
use diamond_bot_v.Near.{only_owner, panic, ok, ok}
use diamond_bot_v.Sample.{by}
use diamond_bot_v.Supply.{
  is_authorized_oracle, get_all_chain_supplies, set_near_chain_id, set_max_supply, SupplyTracker,
  chain_supply,
}

abbrev tracker : SupplyTracker
tracker = record {
  supplies = (1, chain_supply (by 9 0) 1 "NEAR" 250) ∷ (2, chain_supply (by 9 0) 2 "BSC" 50) ∷ [];
  near_chain_id = 1;
  max_supply = 1000;
  owner_id = 9;
}

run-settings :
    (is_authorized_oracle 9 tracker ≡ true)
    × (map (λ s. s.supply) (get_all_chain_supplies tracker) ≡ 250 ∷ 50 ∷ [])
    × (set_near_chain_id (by 9 0) 5 tracker ≡ ok (record tracker { near_chain_id = 5 }))
    × (set_max_supply (by 1 0) 5 tracker ≡ panic only_owner)
unfolding is_authorized_oracle get_all_chain_supplies set_near_chain_id set_max_supply
run-settings = (refl, refl, refl, refl)
