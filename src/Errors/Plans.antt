-- ===== src/Errors/Plans.antt =====
-- What the advice on errors has in common.
use diamond_bot_v.Base.{ℕ, ◌≤◌, ◌≡◌, ◌↔◌, ◌⊎◌, inl, inr, refl, Bool, true, false, arith}
use diamond_bot_v.Errors.Classify.{
  TransactionError, connection_error, insufficient_gas, slippage_error, low_liquidity, token_revert,
  transaction_timeout, insufficient_balance, approval_failed, honeypot_token, withdrawal_failed,
  unknown,
}
use diamond_bot_v.Errors.Recovery.{
  get_recovery_info, give_up, plan, TransactionRecoveryInfo, emergency_sell, abort_transaction,
  retry, wait_and_retry, increase_gas, RecoveryAction,
}

pub record IsConsistent (info : TransactionRecoveryInfo) : Type 0 where
  pub waits :
      info.should_retry ≡ true
      → (1_000 ≤ info.wait_time_before_retry_ms) × (info.wait_time_before_retry_ms ≤ 5_000)
  pub raises : (info.increase_gas ≡ true) ↔ (1 ≤ info.increase_gas_percent)
  pub within : info.increase_gas_percent ≤ 50
  pub gives_up :
      info.should_retry ≡ false
      → (info.increase_gas ≡ false)
        × (info.decrease_slippage ≡ false)
        × (info.wait_time_before_retry_ms ≡ 0)
        × ((info.suggested_action ≡ abort_transaction) ⊎ (info.suggested_action ≡ emergency_sell))

module _ (more less : Bool) (percent wait : ℕ) (action : RecoveryAction) where
  plan-IsConsistent :
      ((more ≡ true) ↔ (1 ≤ percent))
      → (percent ≤ 50) × (1_000 ≤ wait) × (wait ≤ 5_000)
      → IsConsistent (plan more percent less wait action)
  plan-IsConsistent r b = record {
    waits = λ h. (b.1, b.2);
    raises = r;
    within = b.0;
    gives_up = λ h. cc;
  }

raised : (percent : ℕ) → 1 ≤ percent → (true ≡ true) ↔ (1 ≤ percent)
raised percent l = (λ h. l, λ h. refl)

kept : (false ≡ true) ↔ (1 ≤ 0)
kept = (λ h. cc, λ h. absurd (omega arith))

give_up-IsConsistent :
    (action : RecoveryAction)
    → (action ≡ abort_transaction) ⊎ (action ≡ emergency_sell)
    → IsConsistent (give_up action)
give_up-IsConsistent action a = record {
  waits = λ h. cc;
  raises = kept;
  within = omega arith;
  gives_up = λ h. (refl, refl, refl, a);
}

-- The advice on every error is consistent: where it says to retry, it says to wait between one and
-- five seconds; it raises the gas exactly if by some per cent, and by fifty at most; where it says not
-- to retry, it changes neither gas nor slippage, has no time to wait, and says to abort or to sell.
pub get_recovery_info-IsConsistent : (e : TransactionError) → IsConsistent (get_recovery_info e)
unfolding get_recovery_info
get_recovery_info-IsConsistent (connection_error m) =
    plan-IsConsistent false false 0 5_000 wait_and_retry kept (omega arith)
get_recovery_info-IsConsistent (insufficient_gas m) =
    plan-IsConsistent true false 30 2_000 increase_gas (raised 30 (omega arith)) (omega arith)
get_recovery_info-IsConsistent (slippage_error m) =
    plan-IsConsistent false true 0 1_000 retry kept (omega arith)
get_recovery_info-IsConsistent (low_liquidity m) = give_up-IsConsistent abort_transaction (inl refl)
get_recovery_info-IsConsistent (token_revert m) =
    plan-IsConsistent true true 20 3_000 retry (raised 20 (omega arith)) (omega arith)
get_recovery_info-IsConsistent (transaction_timeout m) =
    plan-IsConsistent true false 50 5_000 increase_gas (raised 50 (omega arith)) (omega arith)
get_recovery_info-IsConsistent (insufficient_balance m) =
    give_up-IsConsistent abort_transaction (inl refl)
get_recovery_info-IsConsistent (approval_failed m) =
    plan-IsConsistent true false 30 2_000 retry (raised 30 (omega arith)) (omega arith)
get_recovery_info-IsConsistent (honeypot_token m) = give_up-IsConsistent emergency_sell (inr refl)
get_recovery_info-IsConsistent (withdrawal_failed m) =
    plan-IsConsistent true true 10 2_000 retry (raised 10 (omega arith)) (omega arith)
get_recovery_info-IsConsistent (unknown m) =
    plan-IsConsistent true true 10 2_000 retry (raised 10 (omega arith)) (omega arith)
