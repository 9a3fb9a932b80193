-- ===== src/Payments.antt =====
-- Settlement of open items: internal/repository/payments.go, internal/ledger/payments.go and the
-- outbox rows that go with it.
pub mod Settlement
pub mod Apply
pub mod Journal
pub mod Balance
pub mod Paid
pub mod Replay
