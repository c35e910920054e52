-- ===== src/Sample.antt =====
-- Calls for the tests: account `a` at time `n`, to the contract 100.
pub mod Ledger
use diamond_bot_v.Base.{ℕ, true, false}
use diamond_bot_v.Near.{AccountId, Env}

abbrev pub by : AccountId → ℕ → Env
by a n = record {
  predecessor = a;
  current_account = 100;
  block_timestamp = n;
  block_height = n;
  now = n;
  attached_deposit = 1;
  prepaid_gas = 300_000_000_000_000;
  used_gas = 0;
  promise_successful = true;
}

abbrev pub failed : Env → Env
failed env = record env { promise_successful = false }
