-- ===== src/Errors.antt =====
-- Errors of transactions, common/error_handling.rs: how a message is classified (Classify), what is
-- done about an error (Recovery), and the store of errors (Store).
pub mod Classify
pub mod Recovery
pub mod Store
pub mod Keywords
pub mod Plans
pub mod Records
pub mod Cleanup
mod Tests
