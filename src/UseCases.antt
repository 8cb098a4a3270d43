-- ===== src/UseCases.antt =====
-- The use cases of app/use_cases/ that change claims and applications.
pub mod CreateClaim
pub mod RejectClaim
pub mod PayInFullClaim
pub mod Assessment
pub mod Applications
pub mod History
pub mod Sequence
