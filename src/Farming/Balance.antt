-- ===== src/Farming/Balance.antt =====
-- The books of the staking contract: the stakes of the users against `total_staked`.
use diamond_bot_v.Base.{
  ℕ, zero, suc, ◌+◌, ◌-◌, ◌≡◌, ◌≢◌, refl, inl, inr, Option, none, some, List, [], ◌∷◌, ◌++◌, arith,
  Dict, lookup, insert, erase, Option-cases,
}
use diamond_bot_v.Near.{AccountId, Env, ok, settle, >>=-eq-ok, Result-cases}
use diamond_bot_v.Farming.{
  Stake, Farming, Promise, Callback, stake_callback, unstake_callback, claim_callback, stake,
  staked, deposit_stake, withdraw_stake, restore_total, restored, on_staked, claim_rewards, unstake,
  on_unstaked, on_claimed, set_reward_rate, set_lock_period, transfer_ownership, new,
}
use diamond_bot_v.Farming.World.{
  World, Event, run_callback, callbacks, unsettled, pick, resolve, step, run, start,
}

abbrev pub sum_amounts : Dict Stake → ℕ
sum_amounts [] = 0
sum_amounts ((k, s) ∷ d) = s.amount + sum_amounts d

abbrev amount_of : Option Stake → ℕ
amount_of none = 0
amount_of (some s) = s.amount

sum_amounts-insert :
    (k : ℕ) (v : Stake) (d : Dict Stake)
    → sum_amounts (insert k v d) + amount_of (lookup k d) ≡ sum_amounts d + v.amount
sum_amounts-insert k v [] = omega arith
sum_amounts-insert k v ((j, w) ∷ d) = ground (arith, sum_amounts-insert k v d)

sum_amounts-erase :
    (k : ℕ) (old : Stake) (d : Dict Stake)
    → lookup k d ≡ some old
    → sum_amounts (erase k d) + old.amount ≡ sum_amounts d
sum_amounts-erase k old [] e = cc
sum_amounts-erase k old ((j, w) ∷ d) e = ground (arith, sum_amounts-erase k old d)

sum_amounts-restored : (k : ℕ) (d : Dict Stake) → sum_amounts (restored k d) ≡ sum_amounts d
sum_amounts-restored k d = elim (Option-cases (lookup k d)) [
  | inl e ↦ ground arith
  | inr (s, e) ↦ ground (arith, sum_amounts-insert k (record s { last_claim = s.last_update }) d)
]

-- From `f` to `f'` the stakes less `total_staked` have grown by `up` and fallen by `down`.
abbrev pub Moves : Farming → Farming → ℕ → ℕ → Type 0
Moves f f' up down =
    sum_amounts f'.stakes + f.total_staked + down ≡ sum_amounts f.stakes + f'.total_staked + up

staked-amount :
    (env : Env) (f : Farming) (amount : ℕ) (o : Option Stake) (s : Stake)
    → staked env f amount o ≡ ok s
    → s.amount ≡ amount_of o + amount
unfolding staked
staked-amount env f amount none s h = ground arith
staked-amount env f amount (some t) s h = ground arith

deposit_stake-Moves :
    (env : Env) (user amount : ℕ) (f f' : Farming)
    → deposit_stake env user amount f ≡ ok f'
    → Moves f f' 0 0
unfolding deposit_stake
deposit_stake-Moves env user amount f f' h =
    let (s, es, h1) = >>=-eq-ok (staked env f amount (lookup user f.stakes)) _ h in
    ground (
      arith,
      staked-amount env f amount (lookup user f.stakes) s es,
      sum_amounts-insert user s f.stakes,
      h1,
    )

withdraw_stake-Moves :
    (env : Env) (user amount : ℕ) (f f' : Farming)
    → withdraw_stake env user amount f ≡ ok f'
    → Moves f f' 0 amount
unfolding withdraw_stake
withdraw_stake-Moves env user amount f f' h = elim (Option-cases (lookup user f.stakes)) [
  | inl e ↦ ground arith
  | inr (s, e) ↦ ground (
    arith,
    sum_amounts-insert user (record s { amount = s.amount - amount; last_update = env.now })
        f.stakes,
    sum_amounts-erase user s f.stakes e,
  )
]

run_callback-Moves :
    (env : Env) (c : Callback) (f f' : Farming)
    → run_callback env c f ≡ ok f'
    → Moves f f' 0 (unsettled c)
unfolding run_callback on_staked on_unstaked on_claimed restore_total
run_callback-Moves env (stake_callback user amount) f f' h =
    ground (arith, deposit_stake-Moves env user amount f f')
run_callback-Moves env (unstake_callback user amount) f f' h =
    ground (arith, withdraw_stake-Moves env user amount f f')
run_callback-Moves env (claim_callback user amount) f f' h =
    ground (arith, sum_amounts-restored user f.stakes)

-- A method that schedules a payout has taken it off `total_staked` only.
claim_rewards-Moves :
    (env : Env) (f f' : Farming) (p : Promise)
    → claim_rewards env f ≡ ok (f', p)
    → Moves f f' 0 0 × (unsettled p.callback ≡ 0)
unfolding claim_rewards
claim_rewards-Moves env f f' p h = elim (Option-cases (lookup env.predecessor f.stakes)) [
  | inl e ↦ ground arith
  | inr (s, e) ↦ ground (
    arith,
    sum_amounts-insert env.predecessor
        (record s { last_claim = env.block_timestamp; last_update = env.now }) f.stakes,
  )
]

abbrev pub sum_unsettled : List Callback → ℕ
sum_unsettled [] = 0
sum_unsettled (c ∷ cs) = unsettled c + sum_unsettled cs

sum_unsettled-append :
    (cs ds : List Callback) → sum_unsettled (cs ++ ds) ≡ sum_unsettled cs + sum_unsettled ds
sum_unsettled-append [] ds = omega arith
sum_unsettled-append (c ∷ cs) ds = omega (arith, sum_unsettled-append cs ds)

sum_unsettled-pick :
    (n : ℕ) (cs rest : List Callback) (c : Callback)
    → pick n cs ≡ some (c, rest)
    → sum_unsettled cs ≡ unsettled c + sum_unsettled rest
sum_unsettled-pick n [] rest c h = cc
sum_unsettled-pick zero (d ∷ cs) rest c h = ground arith
sum_unsettled-pick (suc n) (d ∷ cs) rest c h = elim (Option-cases (pick n cs)) [
  | inl e ↦ ground arith
  | inr ((d', ds), e) ↦ ground (arith, sum_unsettled-pick n cs ds d' e)
]

unstake-Moves :
    (env : Env) (amount : ℕ) (f f' : Farming) (ps : List Promise)
    → unstake env amount f ≡ ok (f', ps)
    → Moves f f' (sum_unsettled (callbacks ps)) 0
unfolding unstake
unstake-Moves env amount f f' ps h = elim (Option-cases (lookup env.predecessor f.stakes)) [
  | inl e ↦ ground arith
  | inr (s, e) ↦ elim (Result-cases (claim_rewards env f)) [
    | inl ((g, p), claimed) ↦ ground (arith, claim_rewards-Moves env f g p claimed)
    | inr (x, failed) ↦ ground arith
  ]
]

-- The stakes are what `total_staked` says, the payouts in flight, and those stranded.
abbrev pub IsBalanced : World → Type 0
IsBalanced w =
    sum_amounts w.farming.stakes ≡ w.farming.total_staked + sum_unsettled w.in_flight + w.stranded

resolve-IsBalanced :
    (env : Env) (n : ℕ) (c : Callback) (rest : List Callback) (w : World)
    → pick n w.in_flight ≡ some (c, rest)
    → IsBalanced w
    → IsBalanced (resolve env c rest w)
unfolding resolve
resolve-IsBalanced env n c rest w e h =
    let own = record env { predecessor = env.current_account } in
    elim (Result-cases (run_callback own c w.farming)) [
      | inl (f, r) ↦
          ground (
            arith,
            run_callback-Moves own c w.farming f r,
            sum_unsettled-pick n w.in_flight rest c e,
          )
      | inr (x, r) ↦ ground (arith, sum_unsettled-pick n w.in_flight rest c e)
    ]

-- An outsider's call of a callback panics.
run_callback_private :
    (env : Env) (c : Callback) (f : Farming)
    → env.predecessor ≢ env.current_account
    → settle f (run_callback env c f) ≡ f
unfolding run_callback on_staked on_unstaked on_claimed
run_callback_private env (stake_callback user amount) f h = ground arith
run_callback_private env (unstake_callback user amount) f h = ground arith
run_callback_private env (claim_callback user amount) f h = ground arith

step-IsBalanced : (w : World) (e : Event) → IsBalanced w → IsBalanced (step w e)
unfolding step stake set_reward_rate set_lock_period transfer_ownership
step-IsBalanced w (Event.stakes env amount) h = ground arith
step-IsBalanced w (Event.unstakes env amount) h =
    elim (Result-cases (unstake env amount w.farming)) [
      | inl ((f, ps), r) ↦ ground (
        arith,
        unstake-Moves env amount w.farming f ps r,
        sum_unsettled-append (callbacks ps) w.in_flight,
      )
      | inr (x, r) ↦ ground arith
    ]
step-IsBalanced w (Event.claims env) h = elim (Result-cases (claim_rewards env w.farming)) [
  | inl ((f, p), r) ↦ ground (arith, claim_rewards-Moves env w.farming f p r)
  | inr (x, r) ↦ ground arith
]
step-IsBalanced w (Event.resolves env n) h = elim (Option-cases (pick n w.in_flight)) [
  | inl e ↦ ground arith
  | inr ((c, rest), e) ↦ ground (arith, resolve-IsBalanced env n c rest w e)
]
step-IsBalanced w (Event.calls_back env c) h = ground (arith, run_callback_private env c w.farming)
step-IsBalanced w (Event.sets_reward_rate env rate) h = ground arith
step-IsBalanced w (Event.sets_lock_period env period) h = ground arith
step-IsBalanced w (Event.transfers_ownership env owner) h = ground arith

run-IsBalanced : (w : World) (es : List Event) → IsBalanced w → IsBalanced (run w es)
unfolding run
run-IsBalanced w [] h = h
run-IsBalanced w (e ∷ es) h = run-IsBalanced (step w e) es (step-IsBalanced w e h)

-- After any history of a new contract, the users' stakes sum to `total_staked`, the unstaked amounts
-- whose transfer is still in flight, and the amounts of the unstake callbacks that panicked.
pub run-new-IsBalanced :
    (env : Env) (token : AccountId) (es : List Event) → IsBalanced (run (start (new env token)) es)
run-new-IsBalanced env token es = run-IsBalanced (start (new env token)) es start_balanced
  where
    start_balanced : IsBalanced (start (new env token))
    start_balanced = unfold start new in refl
