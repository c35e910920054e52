-- ===== src/Mining/Rewards.antt =====
-- What a miner is owed: crediting keeps it, claiming pays exactly that, a failed mint gives it back.
use diamond_bot_v.Base.{
  ◌+◌, ◌-◌, ◌*◌, ◌≤◌, ◌<◌, ◌≡◌, sym, ◌∙◌, ◌≢◌, false, arith, insert, lookup-insert_self,
  lookup-insert_ne,
}
use diamond_bot_v.Near.{AccountId, Env, no_rewards, ok, panic, >>=-eq-ok}
use diamond_bot_v.Mining.{
  DiamondMining, MintPromise, reward_of, credited_to, update_rewards, claim_rewards,
  claim_reward_callback, get_pending_reward,
}

-- What `update_rewards` has done when it does not panic, on both of its branches.
pub record Credits (env : Env) (m m' : DiamondMining) : Type 0 where
  pub not_ahead : credited_to m env.predecessor ≤ env.block_height
  pub reward :
      reward_of m' env.predecessor
      ≡ reward_of m env.predecessor
        + (env.block_height - credited_to m env.predecessor) * m.reward_rate
  pub credited : credited_to m' env.predecessor ≡ env.block_height
  pub rate : m'.reward_rate ≡ m.reward_rate
  pub start : m'.last_reward_block ≡ m.last_reward_block

pub update_rewards-Credits :
    (env : Env) (m m' : DiamondMining) → update_rewards env m ≡ ok m' → Credits env m m'
unfolding update_rewards
update_rewards-Credits env m m' h = ground (
  arith,
  lookup-insert_self env.predecessor env.block_height m.last_update,
  lookup-insert_self env.predecessor
      (reward_of m env.predecessor
        + (env.block_height - credited_to m env.predecessor) * m.reward_rate)
      m.rewards,
)

-- Crediting one user leaves every other user's reward and block alone.
pub update_rewards-others :
    (env : Env) (m m' : DiamondMining) (user : AccountId)
    → user ≢ env.predecessor
    → update_rewards env m ≡ ok m'
    → (reward_of m' user ≡ reward_of m user) × (credited_to m' user ≡ credited_to m user)
unfolding update_rewards
update_rewards-others env m m' user ne h = ground (
  arith,
  lookup-insert_ne env.predecessor user env.block_height m.last_update,
  lookup-insert_ne env.predecessor user
      (reward_of m env.predecessor
        + (env.block_height - credited_to m env.predecessor) * m.reward_rate)
      m.rewards,
)

settled_pending :
    (env : Env) (m : DiamondMining) (user : AccountId)
    → credited_to m user ≡ env.block_height
    → get_pending_reward env m user ≡ ok (reward_of m user)
unfolding get_pending_reward
settled_pending env m user h = ground arith

update_rewards-settled :
    (env : Env) (m : DiamondMining)
    → credited_to m env.predecessor ≡ env.block_height
    → update_rewards env m ≡ ok m
unfolding update_rewards
update_rewards-settled env m h = ground arith

pending_before :
    (env : Env) (m m' : DiamondMining)
    → update_rewards env m ≡ ok m'
    → get_pending_reward env m env.predecessor ≡ ok (reward_of m' env.predecessor)
unfolding update_rewards get_pending_reward
pending_before env m m' h = ground (
  arith,
  lookup-insert_self env.predecessor
      (reward_of m env.predecessor
        + (env.block_height - credited_to m env.predecessor) * m.reward_rate)
      m.rewards,
)

-- Crediting does not change what the caller can claim at that block, and the view that shows it
-- agrees with the ledger afterwards.
pub update_rewards-pending :
    (env : Env) (m m' : DiamondMining)
    → update_rewards env m ≡ ok m'
    → (get_pending_reward env m' env.predecessor ≡ get_pending_reward env m env.predecessor)
      × (get_pending_reward env m env.predecessor ≡ ok (reward_of m' env.predecessor))
update_rewards-pending env m m' h =
    let c = update_rewards-Credits env m m' h in
    (
      settled_pending env m' env.predecessor c.credited ∙ sym (pending_before env m m' h),
      pending_before env m m' h,
    )

-- A claim mints the caller's whole pending reward, which is not zero, and leaves nothing pending at
-- that block; a second claim at the block panics.
pub claim_rewards_pays :
    (env : Env) (m m' : DiamondMining) (p : MintPromise)
    → claim_rewards env m ≡ ok (m', p)
    → (0 < p.amount)
      × (p.account ≡ env.predecessor)
      × (get_pending_reward env m env.predecessor ≡ ok p.amount)
      × (get_pending_reward env m' env.predecessor ≡ ok 0)
      × (claim_rewards env m' ≡ panic no_rewards)
unfolding claim_rewards
claim_rewards_pays env m m' p h =
    let (u, eu, h1) = >>=-eq-ok (update_rewards env m) _ h in
    let c = update_rewards-Credits env m u eu in
    let zeroed : DiamondMining = record u { rewards = insert env.predecessor 0 u.rewards } in
    let none_left : reward_of zeroed env.predecessor ≡ 0 =
      ground (arith, lookup-insert_self env.predecessor 0 u.rewards) in
    (
      ground arith,
      ground arith,
      ground (arith, pending_before env m u eu),
      ground (arith, settled_pending env zeroed env.predecessor c.credited, h1),
      ground (arith, update_rewards-settled env zeroed c.credited),
    )

-- A claim whose mint fails gives the reward back: after the callback the user's credited reward is
-- the one that was pending when the claim was made, and the credited block is the claim's.
pub failed_mint_restores :
    (env back : Env) (m m' m'' : DiamondMining) (p : MintPromise)
    → claim_rewards env m ≡ ok (m', p)
    → back.promise_successful ≡ false
    → claim_reward_callback back p.account p.amount m' ≡ ok m''
    → (get_pending_reward env m env.predecessor ≡ ok (reward_of m'' env.predecessor))
      × (credited_to m'' env.predecessor ≡ env.block_height)
unfolding claim_rewards claim_reward_callback
failed_mint_restores env back m m' m'' p h failed k =
    let (u, eu, h1) = >>=-eq-ok (update_rewards env m) _ h in
    let c = update_rewards-Credits env m u eu in
    let zeroed : DiamondMining = record u { rewards = insert env.predecessor 0 u.rewards } in
    let r = reward_of u env.predecessor in
    ground (
      arith,
      pending_before env m u eu,
      c.credited,
      lookup-insert_self env.predecessor 0 u.rewards,
      lookup-insert_self env.predecessor r zeroed.rewards,
    )
