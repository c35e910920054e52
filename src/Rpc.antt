-- ===== src/Rpc.antt =====
-- Calls of nodes that are tried again, snipebot/src/chain_adapters/retry.rs: the kinds of error
-- (Errors), `retry_blockchain_operation` (Retrying), `with_rpc_rotation` (Rotation) and `RPCPool` with
-- `check_rpc_availability` (Pool).
pub mod Errors
pub mod Retrying
pub mod Rotation
pub mod Pool
pub mod Attempts
pub mod Backups
pub mod Fastest
pub mod Marked
mod Tests
