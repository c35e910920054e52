-- ===== src/Mining/World.antt =====
-- The mining contract over a history of its users' calls, with the mints that it has asked for. A
-- mint's callback comes back in any order; a call that panics changes nothing.
use diamond_bot_v.Base.{
  ℕ, zero, suc, ◌+◌, ◌-◌, ◌*◌, ◌≤◌, ◌≡◌, inl, inr, Option, none, some, List, [], ◌∷◌, arith, ◌==◌,
  Bool-cases, ==→eq, if◌then◌else◌, insert, Option-cases, lookup-insert_self, lookup-insert_ne,
}
use diamond_bot_v.Near.{AccountId, Env, ok, panic, settle, >>=-eq-ok, Result-cases}
use diamond_bot_v.Mining.{
  DiamondMining, MintPromise, reward_of, credited_to, update_rewards, claim_rewards,
  claim_reward_callback, new,
}
use diamond_bot_v.Mining.Rewards.{update_rewards-Credits, update_rewards-others}

-- Amounts by account, newest first.
abbrev pub Log : Type 0
Log = List (AccountId × ℕ)

abbrev pub sum_for : AccountId → Log → ℕ
sum_for user [] = 0
sum_for user ((a, n) ∷ l) = (if a == user then n else 0) + sum_for user l

-- `lost` holds the rewards whose callback panicked.
pub record World : Type 0 where
  pub mining : DiamondMining
  pub in_flight : Log
  pub minted : Log
  pub lost : Log

pub data Event : Type 0 where
  updates claims : Env → Event
  resolves : Env → ℕ → Event

abbrev pub pick : ℕ → Log → Option (AccountId × ℕ × Log)
pick n [] = none
pick zero ((a, m) ∷ l) = some (a, m, l)
pick (suc n) (x ∷ l) = elim (pick n l) [ none ↦ none | some (a, m, r) ↦ some (a, m, x ∷ r) ]

unfoldable pub resolve : Env → AccountId → ℕ → Log → World → World
resolve env a n rest w =
    elim (claim_reward_callback (record env { predecessor = env.current_account }) a n w.mining) [
      | ok m ↦ record w {
        mining = m;
        in_flight = rest;
        minted = if env.promise_successful then (a, n) ∷ w.minted else w.minted;
      }
      | panic e ↦ record w { in_flight = rest; lost = (a, n) ∷ w.lost }
    ]

unfoldable pub step : World → Event → World
unfolding resolve
step w (Event.updates env) = record w { mining = settle w.mining (update_rewards env w.mining) }
step w (Event.claims env) = elim (claim_rewards env w.mining) [
  | ok (m, p) ↦ record w { mining = m; in_flight = (p.account, p.amount) ∷ w.in_flight }
  | panic e ↦ w
]
step w (Event.resolves env i) = elim (pick i w.in_flight) [
  | none ↦ w
  | some (a, n, rest) ↦ resolve env a n rest w
]

unfoldable pub run : World → List Event → World
run w [] = w
run w (e ∷ es) = run (step w e) es

unfoldable pub start : DiamondMining → World
start m = record { mining = m; in_flight = []; minted = []; lost = [] }

-- What a user has been given in all: credited, asked for, minted, and lost.
abbrev pub earned : World → AccountId → ℕ
earned w user =
    reward_of w.mining user + sum_for user w.in_flight + sum_for user w.minted + sum_for user w.lost

-- A user has earned the rate for each block from the start to the one up to which it is credited.
pub record Accrues (rate from : ℕ) (user : AccountId) (w : World) : Type 0 where
  pub rate_is : w.mining.reward_rate ≡ rate
  pub start_is : w.mining.last_reward_block ≡ from
  pub from_start : from ≤ credited_to w.mining user
  pub amount_is : earned w user ≡ (credited_to w.mining user - from) * rate

mul_grow :
    (from c h rate : ℕ) → from ≤ c → c ≤ h → (h - from) * rate ≡ (c - from) * rate + (h - c) * rate
mul_grow from c h rate p q =
    let e : h - from ≡ (c - from) + (h - c) = omega arith in rw e (omega arith)

claim_parts :
    (env : Env) (m m' : DiamondMining) (p : MintPromise)
    → claim_rewards env m ≡ ok (m', p)
    → (u : DiamondMining) × (update_rewards env m ≡ ok u)
      × (m' ≡ record u { rewards = insert env.predecessor 0 u.rewards })
      × (p.account ≡ env.predecessor)
      × (p.amount ≡ reward_of u env.predecessor)
unfolding claim_rewards
claim_parts env m m' p h =
    let (u, eu, h1) = >>=-eq-ok (update_rewards env m) _ h in
    (u, eu, ground arith, ground arith, ground arith)

module _ (rate from : ℕ) (user : AccountId) where
  credited-Accrues :
      (env : Env) (w : World) (m : DiamondMining)
      → update_rewards env w.mining ≡ ok m
      → Accrues rate from user w
      → Accrues rate from user (record w { mining = m })
  credited-Accrues env w m e h =
      let c = update_rewards-Credits env w.mining m e in
      elim (Bool-cases (user == env.predecessor)) [
        | inl same ↦ ground (
          arith,
          ==→eq user env.predecessor same,
          mul_grow from (credited_to w.mining user) env.block_height rate,
        )
        | inr other ↦ ground (arith, update_rewards-others env w.mining m user)
      ]

  claimed-Accrues :
      (env : Env) (w : World) (m : DiamondMining) (p : MintPromise)
      → claim_rewards env w.mining ≡ ok (m, p)
      → Accrues rate from user w
      → Accrues rate from user
          (record w { mining = m; in_flight = (p.account, p.amount) ∷ w.in_flight })
  claimed-Accrues env w m p e h =
      let (u, eu, em, ea, en) = claim_parts env w.mining m p e in
      let h' = credited-Accrues env w u eu h in
      elim (Bool-cases (env.predecessor == user)) [
        | inl same ↦
            ground (
              arith,
              ==→eq env.predecessor user same,
              lookup-insert_self env.predecessor 0 u.rewards,
            )
        | inr other ↦ ground (arith, lookup-insert_ne env.predecessor user 0 u.rewards)
      ]

  sum_for-pick :
      (i : ℕ) (l rest : Log) (a n : ℕ)
      → pick i l ≡ some (a, n, rest)
      → sum_for user l ≡ sum_for user ((a, n) ∷ rest)
  sum_for-pick i [] rest a n h = cc
  sum_for-pick zero ((b, m) ∷ l) rest a n h = ground arith
  sum_for-pick (suc i) ((b, m) ∷ l) rest a n h = elim (Option-cases (pick i l)) [
    | inl e ↦ ground arith
    | inr ((c, k, r), e) ↦ ground (arith, sum_for-pick i l r c k e)
  ]

  resolve-Accrues :
      (env : Env) (i a n : ℕ) (rest : Log) (w : World)
      → pick i w.in_flight ≡ some (a, n, rest)
      → Accrues rate from user w
      → Accrues rate from user (resolve env a n rest w)
  unfolding resolve claim_reward_callback
  resolve-Accrues env i a n rest w e h = ground (
    arith,
    sum_for-pick i w.in_flight rest a n e,
    lookup-insert_self a (reward_of w.mining a + n) w.mining.rewards,
    lookup-insert_ne a user (reward_of w.mining a + n) w.mining.rewards,
  )

  step-Accrues :
      (w : World) (e : Event) → Accrues rate from user w → Accrues rate from user (step w e)
  unfolding step
  step-Accrues w (Event.updates env) h = elim (Result-cases (update_rewards env w.mining)) [
    | inl (m, e) ↦ rw (e, step) (credited-Accrues env w m e h)
    | inr (x, e) ↦ rw (e, step) h
  ]
  step-Accrues w (Event.claims env) h = elim (Result-cases (claim_rewards env w.mining)) [
    | inl ((m, p), e) ↦ rw (e, step) (claimed-Accrues env w m p e h)
    | inr (x, e) ↦ rw (e, step) h
  ]
  step-Accrues w (Event.resolves env i) h = elim (Option-cases (pick i w.in_flight)) [
    | inl e ↦ rw (e, step) h
    | inr ((a, n, rest), e) ↦ rw (e, step) (resolve-Accrues env i a n rest w e h)
  ]

  run-Accrues :
      (w : World) (es : List Event) → Accrues rate from user w → Accrues rate from user (run w es)
  unfolding run
  run-Accrues w [] h = h
  run-Accrues w (e ∷ es) h = run-Accrues (step w e) es (step-Accrues w e h)

-- After any history of its users' calls, a new contract has given each user 10 DMD for every block
-- from the deployment to the block that the user is credited up to: what is credited, what is on its
-- way as a mint, what is minted, and what was lost when a callback panicked, add up to that.
pub run-new-Accrues :
    (env : Env) (token user : AccountId) (es : List Event)
    → Accrues 10_000_000_000_000_000_000 env.block_height user (run (start (new env token)) es)
run-new-Accrues env token user es =
    run-Accrues 10_000_000_000_000_000_000 env.block_height user (start (new env token)) es begin
  where
    begin : Accrues 10_000_000_000_000_000_000 env.block_height user (start (new env token))
    begin = unfold start new in omega arith
