-- ===== src/Rlp.antt =====
-- Package rlp: its own sources raw.go and encode.go, by parts.
pub mod Result
pub mod Head
pub mod Raw
pub mod Encode
pub mod Integers
pub mod Stream
pub mod Fields
mod Runs
