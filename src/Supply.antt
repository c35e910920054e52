-- ===== src/Supply.antt =====
-- The supply tracker, blockchain/src/diamond_token/src/supply_tracker.rs: the supply on each chain.
pub mod Total
mod Tests
use diamond_bot_v.Base.{
  ℕ, ◌+◌, Bool, true, false, String, Option, List, [], ◌∷◌, map, leb, ◌==◌, if◌then◌else◌, Dict,
  lookup, insert,
}
use diamond_bot_v.Near.{AccountId, Env, only_owner, Result, ok, panic, ◌>>=◌, ◌>>◌, require, add128}

pub record ChainSupply : Type 0 where
  pub chain_id : ℕ
  pub chain_name : String
  pub supply : ℕ
  pub last_updated : ℕ

pub record SupplyTracker : Type 0 where
  pub supplies : Dict ChainSupply
  pub near_chain_id : ℕ
  pub max_supply : ℕ
  pub owner_id : AccountId

unfoldable pub new : ℕ → ℕ → AccountId → SupplyTracker
new near_chain_id max_supply owner_id = record {
  supplies = [];
  near_chain_id = near_chain_id;
  max_supply = max_supply;
  owner_id = owner_id;
}

abbrev pub chain_supply : Env → ℕ → String → ℕ → ChainSupply
chain_supply env chain_id chain_name supply = record {
  chain_id = chain_id;
  chain_name = chain_name;
  supply = supply;
  last_updated = env.block_timestamp;
}

unfoldable pub update_chain_supply : Env → ℕ → String → ℕ → SupplyTracker → SupplyTracker × Bool
update_chain_supply env chain_id chain_name supply t =
    if env.predecessor == t.owner_id
    then (
      record t {
        supplies = insert chain_id (chain_supply env chain_id chain_name supply) t.supplies;
      },
      true,
    )
    else (t, false)

pub is_authorized_oracle : AccountId → SupplyTracker → Bool
is_authorized_oracle account t = account == t.owner_id

-- The loop of `get_total_circulating_supply`, which is also that over `supplies.iter()`.
unfoldable pub total_from : ℕ → Dict ChainSupply → Result ℕ
total_from total [] = ok total
total_from total ((k, s) ∷ d) = add128 total s.supply >>= λ total'. total_from total' d

unfoldable pub get_total_circulating_supply : SupplyTracker → Result ℕ
get_total_circulating_supply t = total_from 0 t.supplies

pub can_mint_additional : ℕ → SupplyTracker → Result Bool
can_mint_additional amount t = do
  current_total ← get_total_circulating_supply t
  total ← add128 current_total amount
  ok (leb total t.max_supply)

unfoldable pub get_chain_supply : ℕ → SupplyTracker → Option ChainSupply
get_chain_supply chain_id t = lookup chain_id t.supplies

unfoldable pub get_all_chain_supplies : SupplyTracker → List ChainSupply
get_all_chain_supplies t = map (λ e. e.1) t.supplies

pub set_near_chain_id : Env → ℕ → SupplyTracker → Result SupplyTracker
set_near_chain_id env chain_id t = do
  require (env.predecessor == t.owner_id) only_owner
  ok (record t { near_chain_id = chain_id })

pub set_max_supply : Env → ℕ → SupplyTracker → Result SupplyTracker
set_max_supply env max_supply t = do
  require (env.predecessor == t.owner_id) only_owner
  ok (record t { max_supply = max_supply })

unfoldable pub transfer_ownership : Env → AccountId → SupplyTracker → Result SupplyTracker
transfer_ownership env new_owner_id t = do
  require (env.predecessor == t.owner_id) only_owner
  ok (record t { owner_id = new_owner_id })
