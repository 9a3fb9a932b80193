-- ===== src/Adjustments.antt =====
-- Credit and debit notes: internal/repository/adjustments.go and internal/ledger/adjustments.go.
pub mod Items
pub mod Notes
pub mod Floor
