-- ===== src/Supply/Total.antt =====
-- The total over the chains: the loop computes the sum or overflows, and what an update does to it.
use diamond_bot_v.Base.{
  ℕ, ◌+◌, ◌≡◌, ◌≢◌, ◌<◌, true, false, String, Option, none, some, [], ◌∷◌, arith, leb, Dict, lookup,
  insert, lookup-insert_self,
}
use diamond_bot_v.Near.{Env, ok, u128_size, fit}
use diamond_bot_v.Supply.{
  ChainSupply, SupplyTracker, chain_supply, update_chain_supply, total_from,
  get_total_circulating_supply, can_mint_additional, get_chain_supply,
}

abbrev pub sum_supplies : Dict ChainSupply → ℕ
sum_supplies [] = 0
sum_supplies ((k, s) ∷ d) = s.supply + sum_supplies d

abbrev pub supply_of : Option ChainSupply → ℕ
supply_of none = 0
supply_of (some s) = s.supply

pub sum_supplies-insert :
    (k : ℕ) (v : ChainSupply) (d : Dict ChainSupply)
    → sum_supplies (insert k v d) + supply_of (lookup k d) ≡ sum_supplies d + v.supply
sum_supplies-insert k v [] = omega arith
sum_supplies-insert k v ((j, w) ∷ d) = ground (arith, sum_supplies-insert k v d)

total_from-sum :
    (total : ℕ) (d : Dict ChainSupply)
    → total < u128_size
    → total_from total d ≡ fit u128_size (total + sum_supplies d)
unfolding total_from
total_from-sum total [] h = ground arith
total_from-sum total ((k, s) ∷ d) h = ground (arith, total_from-sum (total + s.supply) d)

-- The loop with its partial sums gives the sum of all supplies if that fits 128 bits, and overflows
-- exactly if it does not.
pub total_is_sum :
    (t : SupplyTracker) → get_total_circulating_supply t ≡ fit u128_size (sum_supplies t.supplies)
unfolding get_total_circulating_supply
total_is_sum t = ground (arith, total_from-sum 0 t.supplies)

-- An update by the owner replaces the chain's part of the sum, and the chain then shows the new
-- supply.
pub owner_updates_supply :
    (env : Env) (chain supply : ℕ) (name : String) (t : SupplyTracker)
    → env.predecessor ≡ t.owner_id
    → let (t', done) = update_chain_supply env chain name supply t in
      (done ≡ true)
      × (sum_supplies t'.supplies + supply_of (get_chain_supply chain t)
          ≡ sum_supplies t.supplies + supply)
      × (get_chain_supply chain t' ≡ some (chain_supply env chain name supply))
      × (t'.owner_id ≡ t.owner_id)
unfolding update_chain_supply get_chain_supply
owner_updates_supply env chain supply name t h =
    let v = chain_supply env chain name supply in
    ground (arith, sum_supplies-insert chain v t.supplies, lookup-insert_self chain v t.supplies)

-- Anyone else's update answers `false` and changes nothing.
pub stranger_updates_nothing :
    (env : Env) (chain supply : ℕ) (name : String) (t : SupplyTracker)
    → env.predecessor ≢ t.owner_id
    → update_chain_supply env chain name supply t ≡ (t, false)
unfolding update_chain_supply
stranger_updates_nothing env chain supply name t h = ground arith

-- `can_mint_additional` answers `true` exactly when the sum of all supplies and the amount stay
-- within the maximum; it panics where they do not fit 128 bits.
pub can_mint_additional_lem :
    (amount : ℕ) (t : SupplyTracker)
    → sum_supplies t.supplies + amount < u128_size
    → can_mint_additional amount t ≡ ok (leb (sum_supplies t.supplies + amount) t.max_supply)
unfolding can_mint_additional
can_mint_additional_lem amount t h = ground (arith, total_is_sum t)
