-- ===== src/Errors/Recovery.antt =====
-- `TransactionRecoveryInfo` and `get_recovery_info`.
use diamond_bot_v.Base.{ℕ, Bool, true, false}
use diamond_bot_v.Errors.Classify.{
  TransactionError, connection_error, insufficient_gas, slippage_error, low_liquidity, token_revert,
  transaction_timeout, insufficient_balance, approval_failed, honeypot_token, withdrawal_failed,
  unknown,
}

pub data RecoveryAction : Type 0 where
  retry increase_gas reduce_amount abort_transaction wait_and_retry emergency_sell : RecoveryAction

pub record TransactionRecoveryInfo : Type 0 where
  pub should_retry : Bool
  pub increase_gas : Bool
  pub increase_gas_percent : ℕ
  pub decrease_slippage : Bool
  pub wait_time_before_retry_ms : ℕ
  pub suggested_action : RecoveryAction

abbrev pub plan : Bool → ℕ → Bool → ℕ → RecoveryAction → TransactionRecoveryInfo
plan more_gas percent less_slippage wait action = record {
  should_retry = true;
  increase_gas = more_gas;
  increase_gas_percent = percent;
  decrease_slippage = less_slippage;
  wait_time_before_retry_ms = wait;
  suggested_action = action;
}

abbrev pub give_up : RecoveryAction → TransactionRecoveryInfo
give_up action = record {
  should_retry = false;
  increase_gas = false;
  increase_gas_percent = 0;
  decrease_slippage = false;
  wait_time_before_retry_ms = 0;
  suggested_action = action;
}

unfoldable pub get_recovery_info : TransactionError → TransactionRecoveryInfo
get_recovery_info (insufficient_gas m) = plan true 30 false 2_000 RecoveryAction.increase_gas
get_recovery_info (slippage_error m) = plan false 0 true 1_000 retry
get_recovery_info (low_liquidity m) = give_up abort_transaction
get_recovery_info (token_revert m) = plan true 20 true 3_000 retry
get_recovery_info (transaction_timeout m) = plan true 50 false 5_000 RecoveryAction.increase_gas
get_recovery_info (insufficient_balance m) = give_up abort_transaction
get_recovery_info (approval_failed m) = plan true 30 false 2_000 retry
get_recovery_info (honeypot_token m) = give_up emergency_sell
get_recovery_info (connection_error m) = plan false 0 false 5_000 wait_and_retry
get_recovery_info (withdrawal_failed m) = plan true 10 true 2_000 retry
get_recovery_info (unknown m) = plan true 10 true 2_000 retry
