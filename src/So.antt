-- ===== src/So.antt =====
-- so/handler.go, so/message.go, so/stub.go and simpleDemo.go of 工程化实践/pdx-chain-so: the calls of
-- a contract on the state, by parts.
pub mod Handler
pub mod Stub
pub mod Simple
pub mod Ledger
pub mod History
pub mod Demo
mod Runs
