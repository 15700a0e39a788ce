-- ===== src/Dividend.antt =====
-- contracts/dividend/src/lib.rs: the dividend contract, its operations and their properties.
pub mod State
pub mod Creation
pub mod Claims
pub mod Recovery
pub mod Admin
pub mod Calls
pub mod Escrow
pub mod Shares
pub mod Funding
pub mod Tracking
pub mod Histories
pub mod Payouts
pub mod Solvency
pub mod ClaimEffect
pub mod Dust
pub mod Finality
pub mod Closing
pub mod CreateEffect
pub mod Recoveries
pub mod Consent
mod Tests
