-- ===== src/Models.antt =====
-- Two of the records of common/src/models: Transaction (transaction.rs) and Wallet (wallet.rs).
-- Addresses, hashes, texts and ids are numbers, one for what they format to; the
-- readings of the clock are arguments.
pub mod Transaction
pub mod Wallet
pub mod Receipts
pub mod Status
mod Tests
