-- ===== src/Approvals.antt =====
-- Approval of high-value actions: internal/repository/approvals.go and internal/ledger/approvals.go.
pub mod Tiers
pub mod Sign
pub mod Execute
pub mod Authority
