-- ===== src/Server.antt =====
-- nymstr-server/src/message_utils.rs: the handler of incoming messages.
pub mod State
pub mod Accounts
pub mod Registry
pub mod Delivery
pub mod Freshness
pub mod Inbox
pub mod KeyExchange
pub mod Legacy
pub mod Dispatch
