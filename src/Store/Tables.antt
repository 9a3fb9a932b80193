-- ===== src/Store/Tables.antt =====
-- The state of the database, and what a request brings beside its arguments.
use iag_finance.Base.{ℕ, String, Option, List}
use iag_finance.Calendar.{Time}
use iag_finance.Store.Journal.{Account, Dimension, JournalEntry, FiscalPeriod, AuditEvent}
use iag_finance.Store.Documents.{
  OpenItem, Payment, ExchangeRate, OutboxRow, Adjustment, Approval, ApprovalTier, Decision, Accrual,
  MatchException, TaxCode, RevenueSchedule, ScheduleLine, Obligation,
}
use iag_finance.Store.Assets.{
  Lease, LeaseLine, FixedAsset, DepreciationEntry, Impairment, Revaluation,
}

-- The newest row of a table stands first. `next_id` stands for gen_random_uuid(), and
-- `next_number` for journal_entry_number_seq.
pub record Store (D : Type 0) : Type 0 where
  pub accounts : List Account
  pub cost_centers : List Dimension
  pub projects : List Dimension
  pub entries : List (JournalEntry D)
  pub processed : List (String × String)
  pub periods : List FiscalPeriod
  pub audit : List AuditEvent
  pub ar_items : List (OpenItem D)
  pub ap_items : List (OpenItem D)
  pub payments : List (Payment D)
  pub rates : List (ExchangeRate D)
  pub outbox : List OutboxRow
  pub adjustments : List (Adjustment D)
  pub approvals : List (Approval D)
  pub tiers : List (ApprovalTier D)
  pub decisions : List Decision
  pub accruals : List (Accrual D)
  pub match_exceptions : List MatchException
  pub match_tolerance : Option D
  pub tax_codes : List (TaxCode D)
  pub schedules : List (RevenueSchedule D)
  pub schedule_lines : List (ScheduleLine D)
  pub obligations : List (Obligation D)
  pub leases : List (Lease D)
  pub lease_lines : List (LeaseLine D)
  pub assets : List (FixedAsset D)
  pub depreciation : List (DepreciationEntry D)
  pub impairments : List (Impairment D)
  pub revaluations : List (Revaluation D)
  pub next_id : ℕ
  pub next_number : ℕ

-- The clock, the working entity, the configured base currency, and two functions of Go's library:
-- SHA-256 in
-- hexadecimal, and the texts of a time by RFC 3339 and of its date; a time as a column of type
-- timestamptz returns it, which has microseconds; and the texts of a
-- UUID and of an entry number, 'JE-NNNNNN'.
pub record Context : Type 0 where
  pub now : Time
  pub entity : ℕ
  pub base_currency : String
  pub sha256_hex : String → String
  pub show_time : Time → String
  pub stored_time : Time → Time
  pub show_date : Time → String
  pub show_id : ℕ → String
  pub show_number : ℕ → String

-- repository.DefaultEntityID, and the column default of entity_id.
abbrev pub default_entity : ℕ
default_entity = 0
