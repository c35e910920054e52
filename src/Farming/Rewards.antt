-- ===== src/Farming/Rewards.antt =====
-- The rewards of the staking contract: the formula, when a claim goes through, and what a claim or a
-- new deposit does to what is pending.
use native.Mathlib.Nat.{mul-le-mul}
use diamond_bot_v.Base.{
  ℕ, ◌+◌, ◌-◌, ◌*◌, ◌/◌, ◌^◌, ◌≤◌, ◌<◌, ◌≡◌, ◌≢◌, refl, inl, inr, true, false, some, List, arith,
  lookup, Option-cases, lookup-insert_self,
}
use diamond_bot_v.Near.{Env, overflow, no_rewards, ok, panic, Result-cases, u128_size}
use diamond_bot_v.Farming.{
  Stake, Farming, Promise, ft_transfer, claim_memo, staked, deposit_stake, on_staked, claim_rewards,
  unstake, on_claimed, calculate_reward, get_pending_reward, get_stake,
}

calculate_reward_bounds :
    (env : Env) (f : Farming) (s : Stake) (r : ℕ)
    → calculate_reward env f s ≡ ok r
    → (s.last_claim ≤ env.block_timestamp)
      × (s.amount * f.reward_rate < u128_size)
      × (r
          ≡ s.amount
            * f.reward_rate
            * (env.block_timestamp - s.last_claim)
            / 100_000_000_000_000_000_000)
unfolding calculate_reward
calculate_reward_bounds env f s r h = ground arith

mul_split : (x c t u : ℕ) → c ≤ t → t ≤ u → x * (u - c) ≡ x * (t - c) + x * (u - t)
mul_split x c t u h k = let e : u - c ≡ (t - c) + (u - t) = omega arith in rw e (omega arith)

div_split :
    (a b w r r' whole : ℕ)
    → w ≡ a + b
    → r ≡ a / 100_000_000_000_000_000_000
    → r' ≡ b / 100_000_000_000_000_000_000
    → whole ≡ w / 100_000_000_000_000_000_000
    → (r + r' ≤ whole) × (whole ≤ r + r' + 1)
div_split a b w r r' whole e h h' k = omega arith

-- Two rewards, the second reckoned from where the first left off, are together no more than the one
-- reward over the whole time, and at most one unit less, where none of them overflows.
pub claim_in_two :
    (early late : Env) (f : Farming) (s : Stake) (r r' whole : ℕ)
    → early.block_timestamp ≤ late.block_timestamp
    → calculate_reward early f s ≡ ok r
    → calculate_reward late f (record s { last_claim = early.block_timestamp }) ≡ ok r'
    → calculate_reward late f s ≡ ok whole
    → (r + r' ≤ whole) × (whole ≤ r + r' + 1)
claim_in_two early late f s r r' whole le h h' k =
    let s' : Stake = record s { last_claim = early.block_timestamp } in
    let b = calculate_reward_bounds early f s r h in
    let x = s.amount * f.reward_rate in
    div_split _ _ _ r r' whole
      (mul_split x s.last_claim early.block_timestamp late.block_timestamp b.0 le) b.2
      (calculate_reward_bounds late f s' r' h').2 (calculate_reward_bounds late f s whole k).2

calculate_reward_again :
    (env : Env) (f g : Farming) (s : Stake) (n r : ℕ)
    → g.reward_rate ≡ f.reward_rate
    → calculate_reward env f s ≡ ok r
    → calculate_reward env g (record s { last_claim = env.block_timestamp; last_update = n }) ≡ ok 0
unfolding calculate_reward
calculate_reward_again env f g s n r e h = ground arith

-- A claim that goes through sends the caller exactly the pending reward, which is not zero; a second
-- claim at the same block panics, as there are no rewards.
pub claim_rewards_once :
    (env : Env) (f f' : Farming) (p : Promise)
    → claim_rewards env f ≡ ok (f', p)
    → (r : ℕ) × (get_pending_reward env f env.predecessor ≡ ok r)
      × (0 < r)
      × (p.call ≡ ft_transfer env.predecessor r (claim_memo r))
      × (claim_rewards env f' ≡ panic no_rewards)
unfolding claim_rewards get_pending_reward
claim_rewards_once env f f' p h = elim (Option-cases (lookup env.predecessor f.stakes)) [
  | inl e ↦ absurd (ground arith)
  | inr (s, e) ↦ elim (Result-cases (calculate_reward env f s)) [
    | inl (r, c) ↦ (
      r,
      ground arith,
      ground arith,
      ground arith,
      ground (
        arith,
        calculate_reward_again env f f' s env.now r,
        lookup-insert_self env.predecessor
            (record s { last_claim = env.block_timestamp; last_update = env.now }) f.stakes,
      ),
    )
    | inr (x, c) ↦ absurd (ground arith)
  ]
]

-- Where a user has a reward pending, a deposit's callback that goes through after a successful
-- transfer adds the deposit to the stake and moves its claim time to the block's, from which the
-- reward is reckoned.
pub deposit_drops_reward :
    (env : Env) (user amount r : ℕ) (f f' : Farming)
    → env.promise_successful ≡ true
    → get_pending_reward env f user ≡ ok r
    → 0 < r
    → on_staked env user amount f ≡ ok f'
    → (s : Stake) × (s' : Stake) × (get_stake f user ≡ some s)
      × (get_stake f' user ≡ some s')
      × (s'.amount ≡ s.amount + amount)
      × (s'.last_claim ≡ env.block_timestamp)
unfolding get_pending_reward on_staked deposit_stake staked get_stake
deposit_drops_reward env user amount r f f' ok_flag pending pos h =
    elim (Option-cases (lookup user f.stakes)) [
      | inl e ↦ absurd (ground arith)
      | inr (s, e) ↦
          let s' : Stake = record {
            amount = s.amount + amount;
            start_time = s.start_time;
            last_claim = env.block_timestamp;
            last_update = env.now;
          } in
          (s, s', e, ground (arith, lookup-insert_self user s' f.stakes), refl, refl)
    ]

-- A claim whose transfer fails, with nothing between the claim and its callback, leaves the stake
-- with the claim's clock in seconds as its claim time, and not the earlier one.
pub failed_claim_time :
    (env back : Env) (f f' g : Farming) (p : Promise) (s : Stake)
    → get_stake f env.predecessor ≡ some s
    → claim_rewards env f ≡ ok (f', p)
    → back.promise_successful ≡ false
    → (r : ℕ) → on_claimed back env.predecessor r f' ≡ ok g
    → get_stake g env.predecessor ≡ some (record s { last_claim = env.now; last_update = env.now })
unfolding get_stake claim_rewards on_claimed
failed_claim_time env back f f' g p s e h failed r k =
    let claimed : Stake = record s { last_claim = env.block_timestamp; last_update = env.now } in
    let back_dated : Stake = record s { last_claim = env.now; last_update = env.now } in
    ground (
      arith,
      lookup-insert_self env.predecessor claimed f.stakes,
      lookup-insert_self env.predecessor back_dated f'.stakes,
    )

product_overflows : (x t : ℕ) → 2 ^ 126 ≤ x → 4 ≤ t → u128_size ≤ x * t
product_overflows x t h k = mul-le-mul h k

calculate_reward_overflows :
    (env : Env) (f : Farming) (s : Stake)
    → 2 ^ 126 ≤ s.amount * f.reward_rate
    → s.last_claim + 4 ≤ env.block_timestamp
    → calculate_reward env f s ≡ panic overflow
unfolding calculate_reward
calculate_reward_overflows env f s big late =
    let over : u128_size ≤ s.amount * f.reward_rate * (env.block_timestamp - s.last_claim) =
      product_overflows _ _ big (omega arith) in
    ground arith

-- For a stake whose amount times the rate is 2^126 or more, four nanoseconds after its last claim or
-- later, a claim panics with an overflow and no unstake goes through.
pub overflow_freezes :
    (env : Env) (amount : ℕ) (f : Farming) (s : Stake) (r : Farming × List Promise)
    → get_stake f env.predecessor ≡ some s
    → 2 ^ 126 ≤ s.amount * f.reward_rate
    → s.last_claim + 4 ≤ env.block_timestamp
    → (claim_rewards env f ≡ panic overflow) × (unstake env amount f ≢ ok r)
unfolding get_stake claim_rewards unstake
overflow_freezes env amount f s r e big late =
    let c = calculate_reward_overflows env f s big late in (ground arith, λ h. ground arith)
