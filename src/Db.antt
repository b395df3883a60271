-- ===== src/Db.antt =====
-- nymstr-server/src/db_utils.rs: the tables of the server's SQLite database and its queries.
-- A query may fail without effect: `faults` says so of the calls to come, in order. The unix time
-- of a call is an argument. Rows stand in the order of insertion, which also breaks the ties of
-- ORDER BY.
pub mod Users
pub mod Groups
pub mod Pending
pub mod KeyPackages
pub mod Tables
