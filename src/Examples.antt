-- ===== src/Examples.antt =====
-- Concrete ledgers for the theorems: fixed-point amounts, a clock, accounts and requests.
mod Data
mod Ledgers
mod Paying
mod Approving
mod Recognising
mod Chains
mod Leasing
mod Depreciating
mod Adjusting
mod Relaying
mod Purchasing
mod Closing
mod Restating
mod Matching
