-- ===== src/Decimal.antt =====
-- Decimal numbers of github.com/shopspring/decimal, as far as the ledger uses them.
-- The package is not part of the repository: its operations are a parameter of every definition,
-- `Decimal D`, and its documented arithmetic is the record `Laws`, with decimals identified by
-- their value. `Fixed` meets the laws with fixed-point numbers.
mod Ops
mod Arith
pub mod Fixed
pub use Ops.*
pub use Arith.*
