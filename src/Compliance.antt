-- ===== src/Compliance.antt =====
-- contracts/compliance/src/lib.rs: the allowlist, its operations and their properties.
pub mod State
pub mod Jurisdictions
pub mod Records
pub mod Checks
pub mod Listing
pub mod Pruning
pub mod Admin
pub mod Calls
pub mod Index
pub mod IndexDrop
pub mod IndexEnter
pub mod IndexApprove
pub mod ScanSteps
pub mod IndexPrune
pub mod Codes
pub mod Thinning
pub mod PruneRuns
pub mod PruneStuck
pub mod Allowed
pub mod Paging
pub mod Authority
pub mod Books
pub mod BookEntries
pub mod BookHistories
pub mod Histories
mod Tests
