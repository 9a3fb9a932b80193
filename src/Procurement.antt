-- ===== src/Procurement.antt =====
-- Goods receipts, vendor invoices and stock movements: internal/ledger/grir.go,
-- internal/repository/grni.go, internal/ledger/inventory.go and the three-way match of
-- internal/repository/threewaymatch.go.
pub mod Accruals
pub mod Postings
pub mod Clearing
pub mod Balance
pub mod Matching
pub mod Resolved
