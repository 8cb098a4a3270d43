-- ===== src/Reports.antt =====
-- The reports: app/use_cases/report_date_range.py, the domain modules of the reports and the use
-- cases that generate them.
pub mod DateRange
pub mod Decisions
pub mod Described
pub mod PaymentLines
pub mod CostLimitForecast
pub mod AuditTrailReport
