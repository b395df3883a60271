-- ===== src/Crypto.antt =====
-- crates/nymstr-crypto: the parts that are the program's own.
pub mod EpochBuffer
