-- ===== src/Fuzz.antt =====
-- fuzz/fuzz_targets: the fuzz targets, as programs that run the models of the contracts.
pub mod Harness
pub mod Race
pub mod RaceRuns
pub mod Oracle
pub mod IsAllowed
pub mod IsAllowedRuns
pub mod Expiry
pub mod ExpiryRuns
pub mod Batch
pub mod BatchEntries
pub mod BatchRuns
pub mod Mirror
pub mod Conserve
pub mod Sums
pub mod MirrorSteps
pub mod MirrorRuns
pub mod Refines
pub mod Arithmetic
pub mod ArithmeticRuns
mod Tests
