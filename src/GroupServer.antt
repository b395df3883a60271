-- ===== src/GroupServer.antt =====
-- nymstr-group: the server of one group chat.
pub mod Tables
pub mod Text
pub mod State
pub mod Requests
pub mod Accounts
pub mod Messages
pub mod Welcomes
pub mod Commits
pub mod Process
pub mod Rules
pub mod Checks
pub mod Ordered
pub mod Runs
pub mod Sends
pub mod Once
pub mod Paging
pub mod Steps
