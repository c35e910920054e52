-- ===== src/Users.antt =====
-- The users of the service and their subscriptions, common/src/user.rs: the data and operations are in
-- Subscription, Account and Manager, and the other files prove what holds of them.
pub mod Subscription
pub mod Account
pub mod Manager
pub mod Terms
pub mod Change
pub mod History
pub mod Names
pub mod Locked
pub mod Passwords
pub mod Files
mod Tests
