-- ===== src/Lib.antt =====
-- The NEAR contracts of DiamondBot: the DMD token with its bridge, supply tracker and module manager
-- (blockchain/src/diamond_token), staking (blockchain/src/farming) and mining (blockchain/src/mining);
-- and of its services the users, the cache, the message queue, the rate limiter, the retry policy,
-- the circuit breaker, the nonces, the connection pool, the registries of adapters and of chains, the
-- gas prices, the errors of transactions, the calls of nodes that are tried again, and the records of
-- transactions and wallets.
--
-- How the parts interact. `DiamondToken` holds the ledger, a `SupplyTracker` that keeps the supply on
-- each chain, and a `ModuleManager` that keeps modules, admins and permissions. `mint`, `burn`,
-- `bridge_out` and `bridge_in` change the ledger and then tell the tracker. `Farming` and
-- `DiamondMining` are contracts of their own that call the token through promises and settle in
-- callbacks. `MPCController` is the bridge's multi-signature controller. The parts of the services are
-- separate: each keeps a state of its own, in memory, in a file (`UserManager`) or in Redis
-- (`RedisMessageQueue`).
--
-- Which file models which part; functions keep the source's names.
--   Base            helpers: Boolean tests, lists and association lists over the native numbers.
--   Near            what the contracts share: a call's environment, panics, checked arithmetic.
--   Token           `DiamondToken`, diamond_token/src/lib.rs: the calls that move tokens.
--     Settings      its settings and views; Calls: histories of calls; Cap: the maximum supply;
--                   Flow: what changes the total; Tracking, Foreign: ledger against tracker;
--                   Access: owners; Fees: bridge fees.
--   Supply          `SupplyTracker`, diamond_token/src/supply_tracker.rs.
--   Modules         `ModuleManager`, diamond_token/src/module_manager.rs.
--   Bridge, Mpc     the bridge's types and `MPCController`, diamond_token/src/bridge.rs.
--   Farming         `Farming`, farming/src/lib.rs, with World: the promises in flight.
--   Mining          `DiamondMining`, mining/src/lib.rs, with World: the mints in flight.
--   RateLimit       the rate limiter, common/src/middleware/rate_limit.rs.
--   Retry           `RetryPolicy`, common/src/retry_policy.rs.
--   Users           `Subscription`, `User` and `UserManager`, common/src/user.rs: Subscription, Account
--                   and Manager have the code, Change and History its calls; Terms: the lengths of
--                   subscriptions;
--                   Names: finding users; Locked, Passwords: logging in; Files: restarts.
--   Cache           `BasicCache`, common/src/cache.rs.
--   MessageQueue    `RedisMessageQueue`, network/slave_node/src/message_queue.rs.
--   Breaker         `CircuitBreaker`, snipebot/src/chain_adapters/retry_policy.rs.
--   Nonce           `NonceManager`, snipebot/src/chain_adapters/nonce_manager.rs.
--   Pool            `EndpointInfo` and `RPCConnectionPool`,
--                   snipebot/src/chain_adapters/connection_pool.rs.
--   Lru             `LRUCache`, common/cache.rs, with the crate's `LruCache` as a parameter.
--   Adapters        `AdapterRegistry`, snipebot/src/chain_adapters/adapter_registry.rs.
--   Chains          `ChainRegistry`, snipebot/src/chain_adapters/chain_registry.rs.
--   Gas             `GasOptimizer`, snipebot/src/trade/gas_optimizer.rs: History has its samples, Prices
--                   what it proposes, Cached the cache of prices, Tips `calculate_priority_fee`; Window,
--                   Steady, Limits and Answers have the proofs.
--   Errors          common/error_handling.rs: Classify, Recovery and Store have the code; Keywords, Plans,
--                   Records and Cleanup the proofs.
--   Rpc             snipebot/src/chain_adapters/retry.rs: Retrying, Rotation and Pool have the code;
--                   Attempts, Backups, Fastest and Marked the proofs.
--   Models          `Transaction` and `Wallet`, common/src/models: Receipts and Status have the proofs.
--   Words, Texts    machine words and texts of the services.
--   Redis           the store of the message queue, a parameter without expiry and blocking.
--   Ft              the ledger of `near_contract_standards`, a parameter with its documented laws.
--   Sample          calls and a small ledger for the tests.
--
-- How the code is modelled. A method is a function of the call's environment and the contract's
-- state that gives the new state and the promises it made, or a panic, which reverts the call.
-- Amounts are `u128`, times and gas `u64`: `+`, `-` and `*` panic where the result does not fit,
-- as the contracts are built with `overflow-checks = true`. Account ids, names and transaction ids
-- are only compared, so they are numbers. The services are built without overflow checks, so their
-- `u64` wraps around. A storage map is an association list in the order of insertion. A promise's
-- callback comes back at any later time, in any order, and has succeeded or failed. Loops run over
-- finite lists; the retry loop has fuel for the allowed retries and one call more, which is enough
-- as each round is one retry; `retry_blockchain_operation` has fuel for the allowed calls, as each round
-- is one call. `U256` sums and products panic where they do not fit. What a node, a probe or an operation
-- answers is an argument. The users' hash map is an association list, and
-- its searches are shown not to depend on the order. A write of the users' file succeeds, is refused,
-- or is cut short: `Ok` is taken to mean that the file holds the bytes, and a file that is there can be
-- opened and read. The queue's `Redis` stands for the server and for the cache code around it, which
-- is not modelled: its entries do not expire, and a pop does not block. The retry policy compares a
-- `Duration` with a number of milliseconds, which does not compile; both are read as milliseconds.
--
-- What is not modelled: logs, JSON and storage keys; the storage cost of an account; the token
-- contract's side of the promises of farming and mining; `send_and_receive` of the message queue,
-- which waits on a channel; poisoned locks; the two functions of the gas optimizer that reckon in floating
-- point; the trading bot, the wallet and the rest of the network
-- layer, which call remote services or reckon in floating point, and the rest of common.
pub mod Base
pub mod Near
pub mod Cache
pub mod Farming
pub mod Mining
pub mod Supply
pub mod Modules
pub mod Mpc
pub mod Ft
pub mod Bridge
pub mod Token
pub mod Users
pub mod RateLimit
pub mod Retry
pub mod Breaker
pub mod Lru
pub mod Adapters
pub mod Chains
pub mod Nonce
pub mod Pool
pub mod Redis
pub mod MessageQueue
pub mod Sample
pub mod Words
pub mod Texts
pub mod Gas
pub mod Errors
pub mod Rpc
pub mod Models
