-- ===== src/Farming/World.antt =====
-- The staking contract with the promises that it has scheduled. A callback comes back in any order,
-- at any later block, and its promise has succeeded or failed; a call that panics changes nothing.
use diamond_bot_v.Base.{
  ℕ, zero, suc, ◌+◌, Option, none, some, List, [], ◌∷◌, ◌++◌, ◌==◌, if◌then◌else◌, map,
}
use diamond_bot_v.Near.{AccountId, Env, Result, ok, panic, settle}
use diamond_bot_v.Farming.{
  Farming, Promise, Callback, stake_callback, unstake_callback, claim_callback, stake, on_staked,
  claim_rewards, unstake, on_unstaked, on_claimed, set_reward_rate, set_lock_period,
  transfer_ownership,
}

-- `stranded` counts the tokens of the payouts whose callback panicked.
pub record World : Type 0 where
  pub farming : Farming
  pub in_flight : List Callback
  pub stranded : ℕ

pub data Event : Type 0 where
  stakes unstakes : Env → ℕ → Event
  claims : Env → Event
  resolves : Env → ℕ → Event
  calls_back : Env → Callback → Event
  sets_reward_rate sets_lock_period : Env → ℕ → Event
  transfers_ownership : Env → AccountId → Event

unfoldable pub run_callback : Env → Callback → Farming → Result Farming
run_callback env (stake_callback user amount) f = on_staked env user amount f
run_callback env (unstake_callback user amount) f = on_unstaked env user amount f
run_callback env (claim_callback user amount) f = on_claimed env user amount f

abbrev pub callbacks : List Promise → List Callback
callbacks ps = map (λ p. p.callback) ps

-- What a callback that panics leaves unsettled.
abbrev pub unsettled : Callback → ℕ
unsettled (unstake_callback user amount) = amount
unsettled c = 0

-- The entry at an index, and the list without it.
abbrev pub pick : ℕ → List Callback → Option (Callback × List Callback)
pick n [] = none
pick zero (c ∷ cs) = some (c, cs)
pick (suc n) (c ∷ cs) = elim (pick n cs) [ none ↦ none | some (d, ds) ↦ some (d, c ∷ ds) ]

-- The runtime calls a callback from the contract's own account.
unfoldable pub resolve : Env → Callback → List Callback → World → World
resolve env c rest w =
    elim (run_callback (record env { predecessor = env.current_account }) c w.farming) [
      | ok f ↦ record w { farming = f; in_flight = rest }
      | panic e ↦ record w { in_flight = rest; stranded = w.stranded + unsettled c }
    ]

unfoldable pub step : World → Event → World
step w (Event.stakes env amount) = elim (stake env amount w.farming) [
  | ok p ↦ record w { in_flight = p.callback ∷ w.in_flight }
  | panic e ↦ w
]
step w (Event.unstakes env amount) = elim (unstake env amount w.farming) [
  | ok (f, ps) ↦ record w { farming = f; in_flight = callbacks ps ++ w.in_flight }
  | panic e ↦ w
]
step w (Event.claims env) = elim (claim_rewards env w.farming) [
  | ok (f, p) ↦ record w { farming = f; in_flight = p.callback ∷ w.in_flight }
  | panic e ↦ w
]
step w (Event.resolves env n) = elim (pick n w.in_flight) [
  | none ↦ w
  | some (c, rest) ↦ resolve env c rest w
]
step w (Event.calls_back env c) =
    if env.predecessor == env.current_account
    then w
    else record w { farming = settle w.farming (run_callback env c w.farming) }
step w (Event.sets_reward_rate env rate) = record w {
  farming = settle w.farming (set_reward_rate env rate w.farming);
}
step w (Event.sets_lock_period env period) = record w {
  farming = settle w.farming (set_lock_period env period w.farming);
}
step w (Event.transfers_ownership env owner) = record w {
  farming = settle w.farming (transfer_ownership env owner w.farming);
}

unfoldable pub run : World → List Event → World
run w [] = w
run w (e ∷ es) = run (step w e) es

unfoldable pub start : Farming → World
start f = record { farming = f; in_flight = []; stranded = 0 }
