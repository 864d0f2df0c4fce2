-- ===== src/Idl.antt =====
-- ts-client/src/amm/idl.ts: the instructions that the client calls, the accounts that it filters, and the
-- errors that it translates.
pub mod Types
pub mod Pools
pub mod Liquidity
pub mod Locks
pub mod Errors
