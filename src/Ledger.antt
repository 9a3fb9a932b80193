-- ===== src/Ledger.antt =====
-- The general ledger: internal/ledger/service.go and internal/repository/{repository,booking,periods,fx}.go.
pub mod Lines
pub mod Periods
pub mod Rates
pub mod Booking
pub mod Entries
pub mod Reversal
pub mod Supersede
pub mod Trial
pub mod History
