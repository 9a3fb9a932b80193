-- ===== src/Leases.antt =====
-- Leases under IFRS 16: internal/repository/leases.go and internal/ledger/leases.go.
pub mod Schedule
pub mod Recognition
pub mod Runs
