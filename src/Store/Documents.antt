-- ===== src/Store/Documents.antt =====
-- Rows of the sub-ledgers: open items and payments, approvals, exchange rates, the outbox and the
-- goods-receipt accruals.
use iag_finance.Base.{ℕ, String, Bool, Option, List}
use iag_finance.Calendar.{Time, Date, Period}

pub data Direction : Type 0 where
  ar ap : Direction

pub data ItemStatus : Type 0 where
  open_item partial closed_item : ItemStatus

-- domain.AROpenItem and domain.APOpenItem
pub record OpenItem (D : Type 0) : Type 0 where
  pub id : ℕ
  pub party_ref : String
  pub document_ref : String
  pub amount : D
  pub amount_paid : D
  pub currency : String
  pub status : ItemStatus
  pub fx_rate : D

pub record Payment (D : Type 0) : Type 0 where
  pub id : ℕ
  pub direction : Direction
  pub open_item_id : ℕ
  pub amount : D
  pub currency : String
  pub payment_ref : String
  pub journal_entry_id : ℕ

-- A row of exchange_rates, into the base currency of the row.
pub record ExchangeRate (D : Type 0) : Type 0 where
  pub currency : String
  pub base_currency : String
  pub rate : D
  pub as_of_date : Date

-- A row of event_outbox. A payload that is no JSON object is none.
pub record OutboxRow : Type 0 where
  pub id : ℕ
  pub topic : String
  pub partition_key : String
  pub event_id : String
  pub event_type : String
  pub payload : Option (List (String × String))
  pub published_at : Option Time
  pub attempts : ℕ
  pub last_error : String

-- repository.OutboxEvent
pub record OutboxEvent : Type 0 where
  pub topic : String
  pub partition_key : String
  pub event_id : String
  pub event_type : String
  pub payload : List (String × String)

-- A row of finance_adjustments.
pub record Adjustment (D : Type 0) : Type 0 where
  pub kind : String
  pub direction : Direction
  pub original_document_ref : String
  pub document_ref : String
  pub party_ref : String
  pub amount : D
  pub currency : String
  pub reason : String
  pub journal_entry_id : ℕ

pub data ApprovalStatus : Type 0 where
  pending approved rejected executed : ApprovalStatus

-- What an approval's target type and payload ask for; `unknown_target` is any that cannot be read.
pub data ApprovalTarget : Type 0 where
  journal : ℕ → ApprovalTarget
  payment : Direction → ℕ → String → ApprovalTarget
  unknown_target : ApprovalTarget

pub record Approval (D : Type 0) : Type 0 where
  pub id : ℕ
  pub target : ApprovalTarget
  pub amount : D
  pub currency : String
  pub status : ApprovalStatus
  pub requested_by : String
  pub description : String
  pub result_ref : String
  pub decided_at : Option Time

pub record ApprovalTier (D : Type 0) : Type 0 where
  pub tier : ℕ
  pub min_amount : D
  pub required_perm : String

-- A row of finance_approval_decisions.
pub record Decision : Type 0 where
  pub approval_id : ℕ
  pub tier : ℕ
  pub actor : String
  pub approves : Bool
  pub note : String

-- The column match_status of grni_accruals.
pub data MatchStatus : Type 0 where
  match_open match_matched match_variance match_pending : MatchStatus

pub data MatchType : Type 0 where
  orphan_invoice over_invoice price_variance qty_variance : MatchType

-- repository.MatchException; the status of a row is open or resolved.
pub record MatchException : Type 0 where
  pub id : ℕ
  pub po_ref : String
  pub exception_type : MatchType
  pub detail : String
  pub unresolved : Bool

-- A row of grni_accruals.
pub record Accrual (D : Type 0) : Type 0 where
  pub po_ref : String
  pub currency : String
  pub accrued : D
  pub cleared : D
  pub qty_received : D
  pub qty_invoiced : D
  pub match_status : MatchStatus

-- A row of tax_codes.
pub record TaxCode (D : Type 0) : Type 0 where
  pub code : String
  pub rate : D
  pub reverse_charge : Bool
  pub active : Bool

pub data RecognitionMethod : Type 0 where
  ratable milestone : RecognitionMethod

-- repository.RevenueSchedule
pub record RevenueSchedule (D : Type 0) : Type 0 where
  pub id : ℕ
  pub source_ref : String
  pub entity_id : ℕ
  pub total : D
  pub currency : String
  pub method : RecognitionMethod
  pub start_period : Period
  pub periods : ℕ
  pub completed : Bool
  pub defer_entry_id : ℕ

-- A row of revenue_schedule_lines.
pub record ScheduleLine (D : Type 0) : Type 0 where
  pub id : ℕ
  pub schedule_id : ℕ
  pub period : Period
  pub amount : D
  pub journal_entry_id : Option ℕ

-- A row of performance_obligations.
pub record Obligation (D : Type 0) : Type 0 where
  pub id : ℕ
  pub schedule_id : ℕ
  pub description : String
  pub amount : D
  pub satisfied_at : Option Time
  pub journal_entry_id : Option ℕ
