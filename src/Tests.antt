-- ===== src/Tests.antt =====
-- Runs of the model on concrete data, and the theorems applied to it.
mod Data
mod Decisions
mod Rules
mod Payments
mod Flows
mod Access
mod Reports
mod AuditReport
