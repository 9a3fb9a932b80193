-- ===== src/Lib.antt =====
-- The finance service: its general ledger, payments, approvals, revenue schedules and audit chain.
--
-- The service is a Go program over a Postgres database. Its handlers call `ledger.Service`
-- (internal/ledger), which checks a request and calls `repository.Repository`
-- (internal/repository), which runs the SQL. Here the tables of the schema are one record,
-- `Store` (Store/Tables), and a call is an `Action`: a function from the store to a result and
-- the store after it (Store/Calls). A transaction that fails rolls all tables back, but keeps the
-- numbers that the sequence of entry numbers has handed out. The newest row of a table stands
-- first in its list; a UUID is a number that the store hands out.
--
-- Decimal: the package github.com/shopspring/decimal, which is not part of the repository. Its
--   operations are a parameter, `Decimal D`, and what the proofs use of its arithmetic are the
--   `Laws D`: an ordered commutative group and what rounding leaves alone. Decimal/Fixed meets
--   them with fixed-point numbers in millionths.
-- Calendar: times, dates and the months that are fiscal periods.
-- Audit: the hash chain of internal/chainaudit and internal/hashchain; SHA-256, the text of a time
--   and what a timestamptz column returns of a time are functions of the `Context` of a call, as are
--   the clock and the working entity.
-- Ledger/Lines, Ledger/Entries, Ledger/Booking, Ledger/Reversal, Ledger/Supersede: the journal of
--   internal/ledger/service.go, internal/repository/repository.go and
--   internal/repository/booking.go, with the constraints of journal_lines and the balance and
--   dimension triggers of the migrations in internal/db/migrations. Each Go function is a
--   definition of the same name in small letters.
-- Ledger/Periods, Ledger/Rates: internal/repository/periods.go, internal/ledger/eventdate.go and
--   internal/repository/fx.go. Ledger/Trial: the trial balance of
--   internal/repository/repository.go.
-- Ledger/History: the ledger calls as one state machine, `Request`, and sequences of requests.
-- Payments: internal/ledger/payments.go, internal/repository/payments.go and the outbox row of
--   internal/repository/outbox.go. The two functions for receipts and disbursements are one
--   definition with the direction as an argument.
-- Approvals: internal/repository/approvals.go and internal/ledger/approvals.go; the text
--   functions of Go and of the database are the parameter `Texts`. The tiers and the accounts
--   are kept in the order in which their queries return them.
-- Revenue: internal/repository/revrec.go.
-- Leases: internal/repository/leases.go and internal/ledger/leases.go.
-- Assets: internal/repository/fixed_assets.go, internal/repository/fixed_assets_ias16.go,
--   internal/ledger/fixed_assets.go and internal/ledger/assetdisposal.go.
-- Adjustments: internal/repository/adjustments.go and internal/ledger/adjustments.go.
-- Outbox: internal/repository/outbox.go and the drain of internal/worker/outbox.go; the bus of
--   internal/events is a parameter, `Bus`.
-- Procurement: internal/ledger/grir.go, internal/repository/grni.go and
--   internal/ledger/inventory.go; Procurement/Matching: internal/repository/threewaymatch.go and
--   internal/ledger/threewaymatch.go.
-- YearEnd: internal/ledger/yearend.go and internal/repository/yearend.go.
-- Examples: concrete ledgers at which the theorems are used.
--
-- Every definition is total and none uses fuel: the loops of the program run over lists. Calls
-- are taken one after the other, as the locks and the transactions of the database order them; a
-- race is visible as a unique violation on the event of an entry. Errors of the connection, texts
-- of errors, listing queries, columns that nothing reads, and the request handlers are left out.
--
-- Not modelled: the revaluation of foreign balances, intangible assets, provisions, taxes, payroll,
-- prepayments, late fees and recurring entries, which book through the same BookPostedEntry, and
-- banking, budgets and consolidation.
pub mod Base
pub mod Decimal
pub mod Calendar
pub mod Store
pub mod Audit
pub mod Ledger
pub mod Payments
pub mod Approvals
pub mod Revenue
pub mod Leases
pub mod Assets
pub mod Outbox
pub mod YearEnd
pub mod Procurement
pub mod Adjustments
mod Examples
