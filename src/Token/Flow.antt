-- ===== src/Token/Flow.antt =====
-- Where the tokens come from and go: the ledger's total over a history is what its calls made and took.
use diamond_bot_v.Base.{inl, inr, ℕ, ◌+◌, ◌-◌, ◌≡◌, Bool-cases, if◌then◌else◌, List, [], ◌∷◌, arith}
use diamond_bot_v.Near.{AccountId, Env, Result, ok, panic, settle, Result-cases}
use diamond_bot_v.Ft.{FungibleToken, may_burn}
use diamond_bot_v.Token.{DiamondToken, new, initial_supply}
use diamond_bot_v.Token.Settings.{
  set_lz_endpoint, add_module_admin, add_module, transfer_ownership, set_chain_config,
  update_remote_chain_supply, set_supply_oracle,
}
use diamond_bot_v.Token.Calls.{
  Call, transfers, mints, burns, bridges_out, bridges_in, sets_lz_endpoint, adds_module_admin,
  transfers_ownership, adds_module, sets_chain_config, updates_remote_supply, sets_supply_oracle,
  calls_standard, call, run,
}
use diamond_bot_v.Token.Cap.{
  standard_parts, mint_parts, burn_parts, bridge_out_parts, bridge_in_parts, transfer_parts,
}
use diamond_bot_v.Token.Tracking.{new_tracks}

-- What a call adds to the ledger's total, and what it takes off, if it goes through. What the token
-- standard burns, in its two calls that may burn, is told by the totals before and after.
abbrev pub credit_of : Call → ℕ
credit_of (mints account amount) = amount
credit_of (bridges_in chain sender receiver amount) = amount
credit_of c = 0

abbrev pub debit_of : Call → ℕ → ℕ → ℕ
debit_of (burns amount) before after = amount
debit_of (bridges_out to amount lz) before after = amount
debit_of (calls_standard c) before after = if may_burn c then before - after else 0
debit_of c before after = 0

abbrev if_ok {ℓ} : {A : Type ℓ} → Result A → (A → ℕ) → ℕ
if_ok (ok a) n = n a
if_ok (panic e) n = 0

module _ (ft : FungibleToken) where
  open ft use {
    Token, total_supply, total-deposit, total-withdraw, total-transfer, total-standard,
    total-unburnt,
  }

  -- The sums over the calls of a history that go through.
  pub credited : DiamondToken Token → List (Env × Call) → ℕ
  credited t [] = 0
  credited t ((env, c) ∷ cs) =
      let r = call ft env c t in if_ok r (λ t'. credit_of c) + credited (settle t r) cs

  pub debited : DiamondToken Token → List (Env × Call) → ℕ
  debited t [] = 0
  debited t ((env, c) ∷ cs) =
      let r = call ft env c t in
      if_ok r (λ t'. debit_of c (total_supply t.token) (total_supply t'.token))
      + debited (settle t r) cs

  call_total :
      (env : Env) (c : Call) (t t' : DiamondToken Token)
      → call ft env c t ≡ ok t'
      → total_supply t'.token + debit_of c (total_supply t.token) (total_supply t'.token)
        ≡ total_supply t.token + credit_of c
  unfolding call set_lz_endpoint add_module_admin add_module transfer_ownership set_chain_config
      update_remote_chain_supply set_supply_oracle
  call_total env (transfers receiver amount memo) t t' h =
      let (moved, same) = transfer_parts ft env receiver amount memo t t' h in
      omega (arith, total-transfer env.predecessor receiver amount memo t.token t'.token moved)
  call_total env (mints account amount) t t' h =
      let (owner, caps, made, same) = mint_parts ft env account amount t t' h in
      omega (arith, total-deposit account amount t.token t'.token made)
  call_total env (burns amount) t t' h =
      let (taken, same) = burn_parts ft env amount t t' h in
      omega (arith, total-withdraw env.predecessor amount t.token t'.token taken)
  call_total env (bridges_out to amount lz) t t' h =
      let (taken, same) = bridge_out_parts ft env to amount lz t t' h in
      omega (arith, total-withdraw env.predecessor amount t.token t'.token taken)
  call_total env (bridges_in chain sender receiver amount) t t' h =
      let (r, kept, credit, caps, made, same) =
        bridge_in_parts ft env chain sender receiver amount t t' h in
      omega (arith, kept, total-deposit receiver amount r t'.token made)
  call_total env (sets_lz_endpoint endpoint) t t' h = ground arith
  call_total env (adds_module_admin admin) t t' h = ground arith
  call_total env (transfers_ownership owner) t t' h = ground arith
  call_total env (adds_module module_) t t' h = ground arith
  call_total env (sets_chain_config chain config) t t' h = ground arith
  call_total env (updates_remote_supply chain supply) t t' h = ground arith
  call_total env (sets_supply_oracle chain oracle) t t' h = ground arith
  call_total env (calls_standard c) t t' h =
      let (made, same) = standard_parts ft env c t t' h in
      elim (Bool-cases (may_burn c)) [
        | inl b ↦ rw b (omega (arith, total-standard env c t.token t'.token made))
        | inr b ↦ rw b (omega (arith, total-unburnt env c t.token t'.token b made))
      ]

  run_total :
      (t : DiamondToken Token) (cs : List (Env × Call))
      → total_supply (run ft t cs).token + debited t cs ≡ total_supply t.token + credited t cs
  unfolding run credited debited
  run_total t [] = omega arith
  run_total t ((env, c) ∷ cs) = elim (Result-cases (call ft env c t)) [
    | inl (t', e) ↦
        let step = call_total env c t t' e in
        let rest = run_total t' cs in rw (e, run) (omega (arith, step, rest))
    | inr (x, e) ↦ let rest = run_total t cs in rw (e, run) (omega (arith, rest))
  ]

  -- Over any history of a deployed token, those of the token standard included, the ledger's total is
  -- the initial supply with the amounts of the mints and the bridged arrivals that went through,
  -- without those of the burns and the bridged departures that went through and without what
  -- `ft_resolve_transfer` and `storage_unregister` burned. No other call changes it.
  pub run-new-total :
      (env : Env) (owner lz : AccountId) (chain : ℕ) (t : DiamondToken Token)
      (cs : List (Env × Call))
      → new ft env owner lz chain ≡ ok t
      → total_supply (run ft t cs).token + debited t cs ≡ initial_supply + credited t cs
  run-new-total env owner lz chain t cs h =
      omega (arith, run_total t cs, (new_tracks ft env owner lz chain t h).0)
