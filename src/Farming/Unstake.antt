-- ===== src/Farming/Unstake.antt =====
-- Taking a stake out: what `unstake` checks, what it schedules, and what two of them do before the
-- first transfer comes back.
use diamond_bot_v.Base.{
  ℕ, ◌+◌, ◌-◌, ◌≤◌, ◌<◌, ◌≡◌, ◌≢◌, refl, inl, inr, true, some, List, [], ◌∷◌, arith, lookup,
  Option-cases, lookup-insert_self, HasDistinctKeys, lookup-erase_self,
}
use diamond_bot_v.Near.{Env, ok, Result-cases}
use diamond_bot_v.Farming.{
  Stake, Farming, Promise, Memo, ft_transfer, unstake_callback, withdraw_stake, claim_rewards,
  unstake, on_unstaked, get_stake, promise,
}

claim_rewards_keeps :
    (env : Env) (f f' : Farming) (p : Promise) (s : Stake)
    → lookup env.predecessor f.stakes ≡ some s
    → claim_rewards env f ≡ ok (f', p)
    → (f'.total_staked ≡ f.total_staked)
      × (lookup env.predecessor f'.stakes
          ≡ some (record s { last_claim = env.block_timestamp; last_update = env.now }))
unfolding claim_rewards
claim_rewards_keeps env f f' p s e h = ground (
  arith,
  lookup-insert_self env.predecessor
      (record s { last_claim = env.block_timestamp; last_update = env.now }) f.stakes,
)

-- An `unstake` that goes through found a stake of at least that amount, unlocked by now. It takes the
-- amount off the total and sends it to the caller, and leaves the caller's own stake at its amount
-- until the callback.
pub unstake_checks :
    (env : Env) (amount : ℕ) (f f' : Farming) (ps : List Promise)
    → unstake env amount f ≡ ok (f', ps)
    → (s s' : Stake) × (claim pay : Promise) × (get_stake f env.predecessor ≡ some s)
      × (amount ≤ s.amount)
      × (s.start_time + f.lock_period ≤ env.block_timestamp)
      × (f'.total_staked + amount ≡ f.total_staked)
      × (get_stake f' env.predecessor ≡ some s')
      × (s'.amount ≡ s.amount)
      × (ps ≡ claim ∷ pay ∷ [])
      × (pay.call ≡ ft_transfer env.predecessor amount Memo.unstake_memo)
      × (pay.callback ≡ unstake_callback env.predecessor amount)
unfolding unstake get_stake
unstake_checks env amount f f' ps h = elim (Option-cases (lookup env.predecessor f.stakes)) [
  | inl e ↦ absurd (ground arith)
  | inr (s, e) ↦ elim (Result-cases (claim_rewards env f)) [
    | inl ((g, p), c) ↦
        let (total, kept) = claim_rewards_keeps env f g p s e c in
        (
          s,
          record s { last_claim = env.block_timestamp; last_update = env.now },
          p,
          promise env f (ft_transfer env.predecessor amount Memo.unstake_memo)
              (unstake_callback env.predecessor amount),
          e,
          ground arith,
          ground arith,
          ground arith,
          ground arith,
          refl,
          ground arith,
          refl,
          refl,
        )
    | inr (x, c) ↦ absurd (ground arith)
  ]
]

-- Two unstake callbacks of one user after successful transfers, whose amounts together exceed the
-- stake: once the first has gone through, the second one panics.
pub second_payout_strands :
    (env later : Env) (user a b : ℕ) (f g : Farming) (s : Stake)
    → HasDistinctKeys f.stakes
    → get_stake f user ≡ some s
    → s.amount < a + b
    → env.promise_successful ≡ true
    → later.promise_successful ≡ true
    → on_unstaked env user a f ≡ ok g
    → (h : Farming) → on_unstaked later user b g ≢ ok h
unfolding get_stake on_unstaked withdraw_stake
second_payout_strands env later user a b f g s distinct e short ok1 ok2 first h =
    let left : Stake = record s { amount = s.amount - a; last_update = env.now } in
    ground (arith, lookup-insert_self user left f.stakes, lookup-erase_self user f.stakes distinct)
