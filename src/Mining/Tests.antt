-- ===== src/Mining/Tests.antt =====
-- Tests of the mining contract.
use diamond_bot_v.Base.{ℕ, ◌≡◌, refl, List, [], ◌∷◌}
use diamond_bot_v.Near.{ok, panic, only_owner}
use diamond_bot_v.Sample.{by, failed}
use diamond_bot_v.Mining.{
  force_update_global_reward, set_diamond_token, assert_owner, DiamondMining, MintPromise, promise,
  new, reward_of, credit, update_rewards, claim_rewards, restore_reward, claim_reward_callback,
}
use diamond_bot_v.Mining.World.{Event, run, step, start, resolve, Accrues, run-new-Accrues}

-- Deployed at block 5; account 1 was credited at block 7.
abbrev mine : ℕ → ℕ → DiamondMining
mine reward block = record {
  owner_id = 9;
  diamond_token = 8;
  reward_rate = 10;
  last_reward_block = 5;
  rewards = (1, reward) ∷ [];
  last_update = (1, block) ∷ [];
  last_update_time = block;
}

abbrev history : List Event
history =
    Event.claims (by 1 8)
    ∷ Event.updates (by 2 9)
    ∷ Event.claims (by 1 9)
    ∷ Event.resolves (failed (by 5 10)) 1
    ∷ Event.resolves (by 5 10) 0
    ∷ []

-- The first mint fails and is credited again; the second one is paid.
run-history : reward_of (run (start (new (by 9 5) 8)) history).mining 1 ≡ 30_000_000_000_000_000_000
unfolding new run start step resolve update_rewards credit claim_rewards restore_reward
    claim_reward_callback
run-history = refl

run-new-Accrues_example :
    Accrues 10_000_000_000_000_000_000 5 1 (run (start (new (by 9 5) 8)) history)
run-new-Accrues_example = run-new-Accrues (by 9 5) 8 1 history

abbrev paid : MintPromise
paid = promise (by 1 10) (mine 50 10) 50

-- The owner moves the start of unregistered miners; nobody else does.
run-settings :
    (force_update_global_reward (by 9 12) (mine 0 7)
      ≡ ok (record (mine 0 7) { last_reward_block = 12 }))
    × (set_diamond_token (by 9 12) 6 (mine 0 7) ≡ ok (record (mine 0 7) { diamond_token = 6 }))
    × (force_update_global_reward (by 1 12) (mine 0 7) ≡ panic only_owner)
unfolding force_update_global_reward set_diamond_token assert_owner
run-settings = (refl, refl, refl)
