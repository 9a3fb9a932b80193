-- ===== src/Adjustments/Notes.antt =====
-- Booking a note: BookAdjustment of internal/repository/adjustments.go and CreateAdjustment of
-- internal/ledger/adjustments.go.
use iag_finance.Base.{
  ℕ, String, ◌||◌, Option, none, some, List, [], ◌∷◌, if◌then◌else◌, str_eq, concat,
}
use iag_finance.Calendar.{Time, period_of}
use iag_finance.Decimal.{Decimal, nought, neg, less_than_or_equal, to_string}
use iag_finance.Store.{
  Direction, ar, ap, OpenItem, Adjustment, LineInput, ResolvedLine, CreateJournalParams,
  JournalEntry, AuditInfo, Context, Action, err, original_not_found, invalid_adjustment,
  period_closed, payment_missing, pure, gets, raise_if, or_raise, ◌>>=◌, ◌>>◌,
}
use iag_finance.Ledger.Lines.{resolve_lines}
use iag_finance.Ledger.Booking.{book_posted_entry}
use iag_finance.Ledger.Entries.{actor_or_system}
use iag_finance.Ledger.Periods.{is_period_closed}
use iag_finance.Approvals.Tiers.{Texts}
use iag_finance.Payments.Settlement.{items_of}
use iag_finance.Adjustments.Items.{
  find_document, open_item_fx_rate_by_doc_ref, adjust_open_item_amount, insert_adjustment,
  adjustment_by_entry,
}

-- repository.BookAdjustmentParams; the note is without its entry.
pub record BookAdjustmentParams (D : Type 0) : Type 0 where
  pub event_id : String
  pub event_type : String
  pub description : String
  pub source : String
  pub direction : Direction
  pub delta : D
  pub fx_rate : D
  pub lines : List (ResolvedLine D)
  pub adjustment : Adjustment D

-- ledger.AdjustmentInput
pub record AdjustmentInput (D : Type 0) : Type 0 where
  pub kind : String
  pub direction : String
  pub original_document_ref : String
  pub document_ref : String
  pub reason : String
  pub amount : D
  pub currency : String

pub data NoteKind : Type 0 where
  credit_note debit_note : NoteKind

abbrev pub kind_text : NoteKind → String
kind_text credit_note = "credit_note"
kind_text debit_note = "debit_note"

abbrev pub prefix_of : NoteKind → String
prefix_of credit_note = "CN"
prefix_of debit_note = "DN"

abbrev pub direction_text : Direction → String
direction_text ar = "ar"
direction_text ap = "ap"

abbrev pub read_kind : String → Option NoteKind
read_kind k =
    if str_eq k "credit_note"
    then some credit_note
    else if str_eq k "debit_note"
    then some debit_note
    else none

abbrev pub read_direction : String → Option Direction
read_direction d = if str_eq d "ar" then some ar else if str_eq d "ap" then some ap else none

abbrev pub note_event : Direction → NoteKind → String → String
note_event direction kind doc_ref =
    concat "adjustment." (
      concat (direction_text direction) (concat ":" (concat (kind_text kind) (concat ":" doc_ref))))

module _ {D : Type 0} ⦃dec : Decimal D⦄ where
  abbrev pub note_line : String → D → D → String → LineInput D
  note_line code debit credit memo = record {
    account_code = code;
    debit = debit;
    credit = credit;
    memo = memo;
    cost_center_id = none;
    project_id = none;
  }

  -- The lines of the four cases.
  unfoldable pub note_lines : Direction → NoteKind → D → List (LineInput D)
  note_lines ar credit_note amount =
      note_line "4000" amount nought "Credit note" ∷ note_line "1100" nought amount "AR credit" ∷ []
  note_lines ar debit_note amount =
      note_line "1100" amount nought "AR debit" ∷ note_line "4000" nought amount "Debit note" ∷ []
  note_lines ap credit_note amount =
      note_line "2000" amount nought "AP credit"
      ∷ note_line "5100" nought amount "Vendor credit note"
      ∷ []
  note_lines ap debit_note amount =
      note_line "5100" amount nought "Vendor debit note"
      ∷ note_line "2000" nought amount "AP debit"
      ∷ []

  -- The signed change of the open item.
  unfoldable pub note_delta : NoteKind → D → D
  note_delta credit_note amount = neg amount
  note_delta debit_note amount = amount

module _ {D : Type 0} ⦃dec : Decimal D⦄ (c : Context) where
  abbrev pub note_params : BookAdjustmentParams D → CreateJournalParams D
  note_params p = record {
    description = p.description;
    source_event_id = some p.event_id;
    source_service = some p.source;
    correlation_id = none;
    created_by = none;
    accounting_date = none;
    currency = p.adjustment.currency;
    fx_rate = p.fx_rate;
    lines = p.lines;
    counterparty_entity_id = none;
  }

  -- The side effect of the entry.
  unfoldable pub write_note : BookAdjustmentParams D → ℕ → Action D (Unit {0})
  write_note p entry = do
    adjust_open_item_amount p.direction p.adjustment.original_document_ref p.delta
    _ ← insert_adjustment (record p.adjustment { journal_entry_id = entry })
    pure tt

  abbrev pub note_of : Option (JournalEntry D) → Action D (Adjustment D)
  note_of none = λ s. (err payment_missing, s)
  note_of (some e) = do
    or_raise (← gets (λ s. adjustment_by_entry e.id s.adjustments)) payment_missing

  -- BookAdjustment. What is returned is the note of the entry, new or booked before.
  unfoldable pub book_adjustment :
      BookAdjustmentParams D → Time → Option AuditInfo → Action D (Adjustment D)
  book_adjustment p posted_at audit = do
    entry ←
        book_posted_entry c (note_params p) p.event_id p.event_type posted_at (write_note p) audit
    note_of entry

  abbrev pub note_row :
      AdjustmentInput D → NoteKind → Direction → String → OpenItem D → String → Adjustment D
  note_row in' kind direction doc_ref i currency = record {
    kind = kind_text kind;
    direction = direction;
    original_document_ref = in'.original_document_ref;
    document_ref = doc_ref;
    party_ref = i.party_ref;
    amount = in'.amount;
    currency = currency;
    reason = in'.reason;
    journal_entry_id = 0;
  }

  abbrev pub note_audit : AdjustmentInput D → NoteKind → String → String → String → AuditInfo
  note_audit in' kind doc_ref currency actor = record {
    actor = actor_or_system actor;
    event_type = concat "adjustment." (kind_text kind);
    message = concat (kind_text kind) (
        concat " " (
          concat doc_ref (
            concat " on " (
              concat in'.original_document_ref
                (concat " for " (concat currency (concat " " (to_string in'.amount))))))));
  }

  -- The checks of the period and of the accounts, and the booking.
  unfoldable pub book_note :
      AdjustmentInput D
      → NoteKind
      → Direction
      → String
      → OpenItem D
      → String
      → String
      → Action D (Adjustment D)
  book_note in' kind direction doc_ref i currency actor = do
    fx_rate ← gets (λ s. open_item_fx_rate_by_doc_ref direction in'.original_document_ref s)
    resolved ← (λ s. (resolve_lines s.accounts (note_lines direction kind in'.amount), s))
    raise_if (← gets (λ s. is_period_closed (period_of c.now) s.periods)) period_closed
    book_adjustment
        (record {
          event_id = note_event direction kind doc_ref;
          event_type = "finance.adjustment";
          description = concat (kind_text kind) (concat " — " in'.original_document_ref);
          source = "iag.finance";
          direction = direction;
          delta = note_delta kind in'.amount;
          fx_rate = fx_rate;
          lines = resolved;
          adjustment = note_row in' kind direction doc_ref i currency;
        })
        c.now (some (note_audit in' kind doc_ref currency actor))

  abbrev pub note_ref : Texts → AdjustmentInput D → NoteKind → String
  note_ref txt in' kind =
      let ref = txt.trim_space in'.document_ref in
      if str_eq ref "" then concat (prefix_of kind) (concat "-" in'.original_document_ref) else ref

  -- CreateAdjustment
  unfoldable pub create_adjustment : Texts → AdjustmentInput D → String → Action D (Adjustment D)
  create_adjustment txt in' actor = do
    kind ← or_raise (read_kind (txt.lower (txt.trim_space in'.kind))) invalid_adjustment
    direction ←
        or_raise (read_direction (txt.lower (txt.trim_space in'.direction))) invalid_adjustment
    raise_if (str_eq in'.original_document_ref "" || less_than_or_equal in'.amount nought)
        invalid_adjustment
    i ←
        or_raise (← gets (λ s. find_document in'.original_document_ref (items_of direction s)))
          original_not_found
    book_note in' kind direction (note_ref txt in' kind) i
        (if str_eq in'.currency "" then "UGX" else in'.currency) actor
