-- ===== src/Farming.antt =====
-- The staking contract, blockchain/src/farming/src/lib.rs. Amounts are u128, times u64; a promise that
-- is returned or dropped is scheduled, so a method gives back the promises that it made.
pub mod World
pub mod Balance
pub mod Rewards
pub mod Unstake
mod Tests
use diamond_bot_v.Base.{
  ℕ, ◌+◌, ◌-◌, ◌*◌, ◌/◌, ◌^◌, Bool, true, false, Option, none, some, List, [], ◌∷◌, ltb, leb, ◌==◌,
  if◌then◌else◌, Dict, lookup, insert, erase,
}
use diamond_bot_v.Near.{
  AccountId, Env, Fault, only_owner, private_method, amount_zero, no_stake, insufficient_stake,
  still_locked, no_rewards, Result, ok, panic, ◌>>=◌, ◌>>◌, require, or_panic, add128, mul128,
  add64, checked_sub,
}

pub record Stake : Type 0 where
  pub amount : ℕ
  pub start_time : ℕ
  pub last_claim : ℕ
  pub last_update : ℕ

pub record Farming : Type 0 where
  pub owner_id : AccountId
  pub staking_token : AccountId
  pub total_staked : ℕ
  pub reward_rate : ℕ
  pub stakes : Dict Stake
  pub lock_period : ℕ
  pub last_update : ℕ

pub data Memo : Type 0 where
  no_memo unstake_memo : Memo
  claim_memo : ℕ → Memo

-- The calls of the token contract, and those of the contract's own callbacks.
pub data TokenCall : Type 0 where
  ft_transfer : AccountId → ℕ → Memo → TokenCall
  ft_transfer_call : AccountId → ℕ → Memo → AccountId → TokenCall

pub data Callback : Type 0 where
  stake_callback unstake_callback claim_callback : AccountId → ℕ → Callback

pub record Promise : Type 0 where
  pub contract : AccountId
  pub deposit : ℕ
  pub gas : ℕ
  pub call : TokenCall
  pub callback_contract : AccountId
  pub callback_gas : ℕ
  pub callback : Callback

abbrev pub lock_period_default : ℕ
lock_period_default = 30 * 24 * 60 * 60 * 1_000_000_000

pub new : Env → AccountId → Farming
new env staking_token = record {
  owner_id = env.predecessor;
  staking_token = staking_token;
  total_staked = 0;
  reward_rate = 1_000_000_000_000_000_000;
  stakes = [];
  lock_period = lock_period_default;
  last_update = env.now;
}

pub assert_owner : Env → Farming → Result (Unit {0})
assert_owner env f = require (env.predecessor == f.owner_id) only_owner

-- `#[private]`
abbrev assert_private : Env → Result (Unit {0})
assert_private env = require (env.predecessor == env.current_account) private_method

pub calculate_reward : Env → Farming → Stake → Result ℕ
calculate_reward env f s = do
  time_elapsed ← checked_sub env.block_timestamp s.last_claim
  scaled ← mul128 s.amount f.reward_rate
  accrued ← mul128 scaled time_elapsed
  ok (accrued / (100 * 10 ^ 18))

abbrev promise : Env → Farming → TokenCall → Callback → Promise
promise env f call callback = record {
  contract = f.staking_token;
  deposit = 1;
  gas = env.prepaid_gas / 3;
  call = call;
  callback_contract = env.current_account;
  callback_gas = env.prepaid_gas / 3;
  callback = callback;
}

pub stake : Env → ℕ → Farming → Result Promise
stake env amount f = do
  require (ltb 0 amount) amount_zero
  ok (
      promise env f (ft_transfer_call env.current_account amount Memo.no_memo env.predecessor)
        (stake_callback env.predecessor amount))

-- The stake that `on_staked` writes: a new one, or the old one with more in it.
pub staked : Env → Farming → ℕ → Option Stake → Result Stake
staked env f amount none = ok (record {
  amount = amount;
  start_time = env.block_timestamp;
  last_claim = env.block_timestamp;
  last_update = env.now;
})
staked env f amount (some s) = do
  reward ← calculate_reward env f s
  total ← add128 s.amount amount
  ok (record {
    amount = total;
    start_time = s.start_time;
    last_claim = if ltb 0 reward then env.block_timestamp else s.last_claim;
    last_update = env.now;
  })

-- The two branches of `Farming::stake_callback`, and the callback.
pub deposit_stake : Env → AccountId → ℕ → Farming → Result Farming
deposit_stake env user amount f = do
  s ← staked env f amount (lookup user f.stakes)
  total ← add128 f.total_staked amount
  ok (record f { total_staked = total; stakes = insert user s f.stakes; last_update = env.now })

pub on_staked : Env → AccountId → ℕ → Farming → Result Farming
on_staked env user amount f = do
  assert_private env
  if env.promise_successful then deposit_stake env user amount f else ok f

pub claim_rewards : Env → Farming → Result (Farming × Promise)
claim_rewards env f = do
  s ← or_panic (lookup env.predecessor f.stakes) no_stake
  reward ← calculate_reward env f s
  require (ltb 0 reward) no_rewards
  let claimed = record s { last_claim = env.block_timestamp; last_update = env.now }
  ok (
    record f { stakes = insert env.predecessor claimed f.stakes },
    promise env f (ft_transfer env.predecessor reward (claim_memo reward))
        (claim_callback env.predecessor reward),
  )

pub unstake : Env → ℕ → Farming → Result (Farming × List Promise)
unstake env amount f = do
  s ← or_panic (lookup env.predecessor f.stakes) no_stake
  require (leb amount s.amount) insufficient_stake
  unlocked ← add64 s.start_time f.lock_period
  require (leb unlocked env.block_timestamp) still_locked
  claimed ← claim_rewards env f
  total ← checked_sub claimed.0.total_staked amount
  ok (
    record claimed.0 { total_staked = total },
    claimed.1
        ∷ promise env f (ft_transfer env.predecessor amount Memo.unstake_memo)
            (unstake_callback env.predecessor amount)
        ∷ [],
  )

-- The two branches of `Farming::unstake_callback`, and the callback.
pub withdraw_stake : Env → AccountId → ℕ → Farming → Result Farming
withdraw_stake env user amount f = do
  s ← or_panic (lookup user f.stakes) no_stake
  left ← checked_sub s.amount amount
  let rest = record s { amount = left; last_update = env.now }
  let stakes = if left == 0 then erase user f.stakes else insert user rest f.stakes
  ok (record f { stakes = stakes; last_update = env.now })

pub restore_total : ℕ → Farming → Result Farming
restore_total amount f = do
  total ← add128 f.total_staked amount
  ok (record f { total_staked = total })

pub on_unstaked : Env → AccountId → ℕ → Farming → Result Farming
on_unstaked env user amount f = do
  assert_private env
  if env.promise_successful then withdraw_stake env user amount f else restore_total amount f

-- The stakes after a failed claim.
abbrev restored : AccountId → Dict Stake → Dict Stake
restored user stakes = elim (lookup user stakes) [
  | none ↦ stakes
  | some s ↦ insert user (record s { last_claim = s.last_update }) stakes
]

-- `Farming::claim_callback`
pub on_claimed : Env → AccountId → ℕ → Farming → Result Farming
on_claimed env user amount f = do
  assert_private env
  ok (if env.promise_successful then f else record f { stakes = restored user f.stakes })

pub get_stake : Farming → AccountId → Option Stake
get_stake f account = lookup account f.stakes

pub get_pending_reward : Env → Farming → AccountId → Result ℕ
get_pending_reward env f account = elim (lookup account f.stakes) [
  | none ↦ ok 0
  | some s ↦ calculate_reward env f s
]

pub set_reward_rate : Env → ℕ → Farming → Result Farming
unfolding assert_owner
set_reward_rate env rate f = do
  assert_owner env f
  ok (record f { reward_rate = rate; last_update = env.now })

pub set_lock_period : Env → ℕ → Farming → Result Farming
unfolding assert_owner
set_lock_period env period f = do
  assert_owner env f
  ok (record f { lock_period = period; last_update = env.now })

pub transfer_ownership : Env → AccountId → Farming → Result Farming
unfolding assert_owner
transfer_ownership env new_owner f = do
  assert_owner env f
  ok (record f { owner_id = new_owner; last_update = env.now })
