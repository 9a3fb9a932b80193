-- ===== src/Store/Journal.antt =====
-- Rows of the general ledger: internal/domain/ledger.go, and ResolvedLine, CreateJournalParams and
-- AuditInfo of internal/repository. UUIDs are numbers that the store hands out; an entry carries
-- its journal_lines rows, and an entry number 'JE-NNNNNN' is its number.
use iag_finance.Base.{ℕ, String, Bool, Option, List}
use iag_finance.Calendar.{Time, Date, Period}

pub data AccountType : Type 0 where
  asset liability equity revenue expense : AccountType
  other : String → AccountType

pub record Account : Type 0 where
  pub id : ℕ
  pub code : String
  pub account_type : AccountType
  pub active : Bool
  pub restrict_to_natural_side : Bool

pub data EntryStatus : Type 0 where
  draft posted reversed : EntryStatus

-- A row of cost_centers or of projects.
pub record Dimension : Type 0 where
  pub id : ℕ
  pub entity_id : ℕ

-- A row of journal_lines.
pub record JournalLine (D : Type 0) : Type 0 where
  pub account_id : ℕ
  pub debit : D
  pub credit : D
  pub memo : String
  pub line_order : ℕ
  pub currency : String
  pub debit_base : D
  pub credit_base : D
  pub cost_center_id : Option ℕ
  pub project_id : Option ℕ

pub record JournalEntry (D : Type 0) : Type 0 where
  pub id : ℕ
  pub entry_number : ℕ
  pub description : String
  pub status : EntryStatus
  pub source_event_id : Option String
  pub source_service : Option String
  pub correlation_id : Option String
  pub accounting_date : Date
  pub reverses_entry_id : Option ℕ
  pub posted_at : Option Time
  pub created_by : Option ℕ
  pub entity_id : ℕ
  pub counterparty_entity_id : Option ℕ
  pub lines : List (JournalLine D)

-- ledger.LineInput
pub record LineInput (D : Type 0) : Type 0 where
  pub account_code : String
  pub debit : D
  pub credit : D
  pub memo : String
  pub cost_center_id : Option ℕ
  pub project_id : Option ℕ

-- repository.ResolvedLine; an empty currency is that of the entry.
pub record ResolvedLine (D : Type 0) : Type 0 where
  pub account_id : ℕ
  pub debit : D
  pub credit : D
  pub memo : String
  pub line_order : ℕ
  pub currency : String
  pub debit_base : Option D
  pub credit_base : Option D
  pub cost_center_id : Option ℕ
  pub project_id : Option ℕ

-- repository.CreateJournalParams, but for the number and the status, which every caller sets itself.
pub record CreateJournalParams (D : Type 0) : Type 0 where
  pub description : String
  pub source_event_id : Option String
  pub source_service : Option String
  pub correlation_id : Option String
  pub created_by : Option ℕ
  pub accounting_date : Option Time  -- none is the zero time
  pub currency : String
  pub fx_rate : D
  pub lines : List (ResolvedLine D)
  pub counterparty_entity_id : Option ℕ

pub record AuditInfo : Type 0 where
  pub actor : String
  pub event_type : String
  pub message : String

-- A row of audit_events.
pub record AuditEvent : Type 0 where
  pub id : ℕ
  pub ts : Time
  pub actor : String
  pub event_type : String
  pub message : String
  pub prev_hash : String
  pub hash : String

pub data PeriodStatus : Type 0 where
  open_period closed_period : PeriodStatus

pub record FiscalPeriod : Type 0 where
  pub period : Period
  pub status : PeriodStatus
  pub closed_at : Option Time
  pub closed_by : Option ℕ
