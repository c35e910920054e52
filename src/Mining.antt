-- ===== src/Mining.antt =====
-- The mining contract, blockchain/src/mining/src/lib.rs: rewards by the block, claimed as mints.
pub mod Rewards
pub mod World
mod Tests
use diamond_bot_v.Base.{
  ℕ, ◌+◌, ◌-◌, ◌*◌, ◌/◌, Bool, Option, none, some, List, [], ltb, ◌==◌, if◌then◌else◌, Dict, lookup,
  insert,
}
use diamond_bot_v.Near.{
  AccountId, Env, only_owner, private_method, no_rewards, Result, ok, panic, ◌>>=◌, ◌>>◌, require,
  add128, mul128, checked_sub,
}

pub record DiamondMining : Type 0 where
  pub owner_id : AccountId
  pub diamond_token : AccountId
  pub reward_rate : ℕ
  pub last_reward_block : ℕ
  pub rewards : Dict ℕ
  pub last_update : Dict ℕ
  pub last_update_time : ℕ

-- `mint(account, amount)` on the token contract, then `claim_reward_callback` with the same.
pub record MintPromise : Type 0 where
  pub contract : AccountId
  pub deposit : ℕ
  pub gas : ℕ
  pub account : AccountId
  pub amount : ℕ
  pub callback_contract : AccountId
  pub callback_gas : ℕ

pub new : Env → AccountId → DiamondMining
new env diamond_token = record {
  owner_id = env.predecessor;
  diamond_token = diamond_token;
  reward_rate = 10_000_000_000_000_000_000;
  last_reward_block = env.block_height;
  rewards = [];
  last_update = [];
  last_update_time = env.now;
}

abbrev pub unwrap_or : ℕ → Option ℕ → ℕ
unwrap_or d none = d
unwrap_or d (some n) = n

-- The credited reward of a user, and the block up to which it is credited.
abbrev pub reward_of : DiamondMining → AccountId → ℕ
reward_of m user = unwrap_or 0 (lookup user m.rewards)

abbrev pub credited_to : DiamondMining → AccountId → ℕ
credited_to m user = unwrap_or m.last_reward_block (lookup user m.last_update)

credit : Env → ℕ → DiamondMining → Result DiamondMining
credit env blocks_passed m = do
  total_reward ← mul128 blocks_passed m.reward_rate
  new_reward ← add128 (reward_of m env.predecessor) total_reward
  ok (record m {
    rewards = insert env.predecessor new_reward m.rewards;
    last_update = insert env.predecessor env.block_height m.last_update;
    last_update_time = env.now;
  })

pub update_rewards : Env → DiamondMining → Result DiamondMining
unfolding credit
update_rewards env m = do
  blocks_passed ← checked_sub env.block_height (credited_to m env.predecessor)
  if ltb 0 blocks_passed then credit env blocks_passed m else ok m

abbrev promise : Env → DiamondMining → ℕ → MintPromise
promise env m reward = record {
  contract = m.diamond_token;
  deposit = 1;
  gas = env.prepaid_gas / 3;
  account = env.predecessor;
  amount = reward;
  callback_contract = env.current_account;
  callback_gas = env.prepaid_gas / 3;
}

pub claim_rewards : Env → DiamondMining → Result (DiamondMining × MintPromise)
claim_rewards env m = do
  updated ← update_rewards env m
  require (ltb 0 (reward_of updated env.predecessor)) no_rewards
  ok (
    record updated { rewards = insert env.predecessor 0 updated.rewards },
    promise env updated (reward_of updated env.predecessor),
  )

-- The failure branch of `claim_reward_callback`, and the callback, which is `#[private]`.
restore_reward : AccountId → ℕ → DiamondMining → Result DiamondMining
restore_reward user amount m = do
  total ← add128 (reward_of m user) amount
  ok (record m { rewards = insert user total m.rewards })

pub claim_reward_callback : Env → AccountId → ℕ → DiamondMining → Result DiamondMining
unfolding restore_reward
claim_reward_callback env user amount m = do
  require (env.predecessor == env.current_account) private_method
  if env.promise_successful then ok m else restore_reward user amount m

with_additional : ℕ → DiamondMining → AccountId → Result ℕ
with_additional blocks_passed m account = do
  additional_reward ← mul128 blocks_passed m.reward_rate
  add128 (reward_of m account) additional_reward

pub get_pending_reward : Env → DiamondMining → AccountId → Result ℕ
unfolding with_additional
get_pending_reward env m account = do
  blocks_passed ← checked_sub env.block_height (credited_to m account)
  if ltb 0 blocks_passed then with_additional blocks_passed m account else ok (reward_of m account)

assert_owner : Env → DiamondMining → Result (Unit {0})
assert_owner env m = require (env.predecessor == m.owner_id) only_owner

pub set_reward_rate : Env → ℕ → DiamondMining → Result DiamondMining
unfolding assert_owner
set_reward_rate env rate m = do assert_owner env m; ok (record m { reward_rate = rate })

pub force_update_global_reward : Env → DiamondMining → Result DiamondMining
unfolding assert_owner
force_update_global_reward env m = do
  assert_owner env m
  ok (record m { last_reward_block = env.block_height })

pub set_diamond_token : Env → AccountId → DiamondMining → Result DiamondMining
unfolding assert_owner
set_diamond_token env token m = do assert_owner env m; ok (record m { diamond_token = token })

pub transfer_ownership : Env → AccountId → DiamondMining → Result DiamondMining
unfolding assert_owner
transfer_ownership env owner m = do assert_owner env m; ok (record m { owner_id = owner })
