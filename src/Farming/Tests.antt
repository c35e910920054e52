-- ===== src/Farming/Tests.antt =====
-- Tests of the staking contract: runs on small stakes, and where each result's conditions hold.
use diamond_bot_v.Base.{ℕ, ◌≡◌, ◌≢◌, refl, List, [], ◌∷◌, arith}
use diamond_bot_v.Near.{ok}
use diamond_bot_v.Sample.{by, failed}
use diamond_bot_v.Farming.{
  Stake, Farming, Promise, Memo, ft_transfer, claim_memo, claim_callback, unstake_callback, promise,
  new, stake, staked, deposit_stake, withdraw_stake, restore_total, on_staked, claim_rewards,
  unstake, on_unstaked, calculate_reward, get_stake, set_lock_period, assert_owner,
}
use diamond_bot_v.Farming.World.{Event, run, start, step, resolve, run_callback}
use diamond_bot_v.Farming.Balance.{IsBalanced, run-new-IsBalanced}
use diamond_bot_v.Farming.Unstake.{second_payout_strands}

abbrev held : ℕ → ℕ → ℕ → Stake
held amount claimed updated = record {
  amount = amount;
  start_time = 0;
  last_claim = claimed;
  last_update = updated;
}

-- One stake of account 1, no lock.
abbrev farm : Stake → ℕ → Farming
farm s total = record {
  owner_id = 9;
  staking_token = 8;
  total_staked = total;
  reward_rate = 1_000_000_000_000_000_000;
  stakes = (1, s) ∷ [];
  lock_period = 0;
  last_update = 0;
}

abbrev history : List Event
history =
    Event.stakes (by 1 0) 1000
    ∷ Event.resolves (by 5 1) 0
    ∷ Event.sets_lock_period (by 9 2) 0
    ∷ Event.unstakes (by 1 20) 400
    ∷ Event.resolves (failed (by 5 21)) 1
    ∷ []

-- The unstaking's transfer fails, so its amount is in the total again.
run-history : (run (start (new (by 9 0) 8)) history).farming.total_staked ≡ 1000
unfolding new run start step resolve run_callback stake on_staked deposit_stake staked unstake
    claim_rewards calculate_reward on_unstaked restore_total set_lock_period assert_owner
run-history = refl

run-new-IsBalanced_example : IsBalanced (run (start (new (by 9 0) 8)) history)
run-new-IsBalanced_example = run-new-IsBalanced (by 9 0) 8 history

abbrev promises : List Promise
promises =
    promise (by 1 10) (farm (held 1000 0 0) 1000) (ft_transfer 1 100 (claim_memo 100))
      (claim_callback 1 100)
    ∷ promise (by 1 10) (farm (held 1000 0 0) 1000) (ft_transfer 1 400 Memo.unstake_memo)
        (unstake_callback 1 400)
    ∷ []

-- Two payouts of 600 for a stake of 1000.
second_payout_strands_example :
    on_unstaked (by 100 12) 1 600 (record (farm (held 400 0 11) 0) { last_update = 11 })
    ≢ ok (farm (held 0 0 0) 0)
unfolding on_unstaked withdraw_stake get_stake
second_payout_strands_example =
    second_payout_strands (by 100 11) (by 100 12) 1 600 600 (farm (held 1000 0 0) 0)
      (record (farm (held 400 0 11) 0) { last_update = 11 }) (held 1000 0 0) (ground arith) refl
      (omega arith) refl refl refl (farm (held 0 0 0) 0)
