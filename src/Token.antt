-- ===== src/Token.antt =====
-- contracts/asset-token/src/lib.rs: the asset token, its operations and their properties.
pub mod State
pub mod Genesis
pub mod Transfers
pub mod Allowances
pub mod Supply
pub mod Admin
pub mod Calls
pub mod Keeping
pub mod Backing
pub mod TransferEffect
pub mod Batch
pub mod Spending
pub mod Frozen
pub mod Authority
pub mod Valuation
pub mod Flows
pub mod Consent
pub mod Stays
pub mod Holding
mod Tests
