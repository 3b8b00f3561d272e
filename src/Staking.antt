-- ===== src/Staking.antt =====
-- staking: liquid and native staking of SOL.
pub mod Types
pub mod Bytes
pub mod Accounts
pub mod Rates
pub mod Instructions
pub mod Amounts
pub mod Fallback
pub mod Chain
pub mod Building
pub mod History
pub mod Positions
mod Tests
