-- ===== src/Payments/Journal.antt =====
-- A payment with its entry: ApplyPaymentWithJournal of internal/repository/payments.go, and
-- ApplyARPayment and ApplyAPPayment of internal/ledger/payments.go.
use iag_finance.Base.{ℕ, String, Option, none, some, List, ◌∷◌, if◌then◌else◌, str_eq, concat}
use iag_finance.Decimal.{Decimal, to_string}
use iag_finance.Store.{
  Direction, ar, ap, OpenItem, Payment, OutboxEvent, ResolvedLine, CreateJournalParams, AuditInfo,
  Context, Action, Result, ok, err, open_item_not_found, currency_mismatch, pure, gets, lift,
  transaction, or_raise, ◌>>=◌, ◌>>◌,
}
use iag_finance.Audit.{append_audit}
use iag_finance.Ledger.Booking.{
  is_event_processed, mark_processed, next_entry_number, insert_posted_entry, assert_balanced,
  optional_string,
}
use iag_finance.Ledger.Entries.{actor_or_system}
use iag_finance.Payments.Settlement.{find_item, items_of, settlement_lines, settlement_rates}
use iag_finance.Payments.Apply.{
  applied, insert_payment, update_item, payment_by_source_event, enqueue_if,
}

-- repository.PaymentWithJournalParams
pub record PaymentWithJournalParams (D : Type 0) : Type 0 where
  pub event_id : String
  pub event_type : String
  pub source : String
  pub correlation_id : String
  pub description : String
  pub direction : Direction
  pub open_item_id : ℕ
  pub amount : D
  pub currency : String
  pub payment_ref : String
  pub fx_rate : D
  pub lines : List (ResolvedLine D)
  pub outbox : Option OutboxEvent

abbrev pub payment_event : Context → Direction → ℕ → String → String
payment_event c ar id ref = concat "payment.ar:" (concat (c.show_id id) (concat ":" ref))
payment_event c ap id ref = concat "payment.ap:" (concat (c.show_id id) (concat ":" ref))

abbrev pub event_type_of : Direction → String
event_type_of ar = "payment.received"
event_type_of ap = "payment.disbursed"

abbrev pub audit_type_of : Direction → String
audit_type_of ar = "ar.payment"
audit_type_of ap = "ap.payment"

abbrev pub label_of : Direction → String
label_of ar = "AR payment"
label_of ap = "AP payment"

module _ {D : Type 0} ⦃dec : Decimal D⦄ (c : Context) where
  abbrev pub journal_params : PaymentWithJournalParams D → CreateJournalParams D
  journal_params p = record {
    description = p.description;
    source_event_id = optional_string p.event_id;
    source_service = some p.source;
    correlation_id = optional_string p.correlation_id;
    created_by = none;
    accounting_date = none;
    currency = p.currency;
    fx_rate = p.fx_rate;
    lines = p.lines;
    counterparty_entity_id = none;
  }

  -- The entry of the payment, and the record of its event.
  unfoldable pub book_payment : PaymentWithJournalParams D → Action D ℕ
  book_payment p = do
    number ← next_entry_number
    entry ← insert_posted_entry c (journal_params p) number c.now
    _ ← mark_processed p.event_id p.event_type
    pure entry

  -- What follows it, with the trigger at the commit.
  unfoldable pub record_payment :
      PaymentWithJournalParams D → Option AuditInfo → ℕ → Action D (Payment D)
  record_payment p audit entry = do
    row ← insert_payment p.direction p.open_item_id p.amount p.currency p.payment_ref entry
    append_audit c audit
    enqueue_if p.outbox
    assert_balanced entry
    pure row

  -- The transaction of ApplyPaymentWithJournal.
  unfoldable pub payment_tx : PaymentWithJournalParams D → Option AuditInfo → Action D (Payment D)
  payment_tx p audit = do
    i ←
        or_raise (← gets (λ s. find_item p.open_item_id (items_of p.direction s)))
          open_item_not_found
    (new_paid, status) ← lift (applied i p.amount)
    entry ← book_payment p
    update_item p.direction p.open_item_id new_paid status
    record_payment p audit entry

  unfoldable pub apply_payment_with_journal :
      PaymentWithJournalParams D → Option AuditInfo → Action D (Payment D)
  unfolding payment_tx
  apply_payment_with_journal p audit s =
      if is_event_processed p.event_id s.processed
      then (payment_by_source_event p.event_id s, s)
      else transaction (payment_tx p audit) s

  abbrev pub with_document : OpenItem D → OutboxEvent → OutboxEvent
  with_document i ev = record ev { payload = ("documentRef", i.document_ref) ∷ ev.payload }

  abbrev pub with_document_ref : OpenItem D → Option OutboxEvent → Option OutboxEvent
  with_document_ref i none = none
  with_document_ref i (some ev) = some (with_document i ev)

  -- The empty currency is that of the item; any other has to be it.
  abbrev pub payment_currency : OpenItem D → String → Result String
  payment_currency i currency =
      if str_eq currency ""
      then ok i.currency
      else if str_eq currency i.currency
      then ok currency
      else err currency_mismatch

  abbrev pub payment_params :
      Direction
      → OpenItem D
      → D
      → String
      → String
      → D
      → List (ResolvedLine D)
      → Option OutboxEvent
      → PaymentWithJournalParams D
  payment_params direction i amount currency ref doc_rate lines outbox = record {
    event_id = payment_event c direction i.id ref;
    event_type = event_type_of direction;
    source = "iag.finance";
    correlation_id = ref;
    description = concat (label_of direction) (concat " — " i.document_ref);
    direction = direction;
    open_item_id = i.id;
    amount = amount;
    currency = currency;
    payment_ref = ref;
    fx_rate = doc_rate;
    lines = lines;
    outbox = with_document_ref i outbox;
  }

  abbrev pub payment_audit : Direction → OpenItem D → D → String → String → String → AuditInfo
  payment_audit direction i amount currency ref actor = record {
    actor = actor_or_system actor;
    event_type = audit_type_of direction;
    message = concat (label_of direction) (
        concat " " (
          concat ref (
            concat " on " (
              concat i.document_ref
                (concat " for " (concat currency (concat " " (to_string amount))))))));
  }

  -- The payment with its lines, and the item as it is then.
  unfoldable pub pay_item :
      Direction
      → ℕ
      → OpenItem D
      → D
      → String
      → String
      → String
      → Option OutboxEvent
      → D
      → List (ResolvedLine D)
      → Action D (Payment D × Option (OpenItem D))
  pay_item direction id i amount paid_in ref actor outbox doc_rate lines = do
    payment ←
        apply_payment_with_journal
          (payment_params direction i amount paid_in ref doc_rate lines outbox)
          (some (payment_audit direction i amount paid_in ref actor))
    updated ← gets (λ s. find_item id (items_of direction s))
    pure (payment, updated)

  -- ApplyARPayment and ApplyAPPayment, which differ in the direction alone.
  unfoldable pub apply_item_payment :
      Direction
      → ℕ
      → D
      → String
      → String
      → String
      → Option OutboxEvent
      → Action D (Payment D × Option (OpenItem D))
  apply_item_payment direction id amount currency ref actor outbox = do
    i ← or_raise (← gets (λ s. find_item id (items_of direction s))) open_item_not_found
    paid_in ← lift (payment_currency i currency)
    (doc_rate, pay_rate) ← gets (λ s. settlement_rates c direction id paid_in s)
    lines ← (λ s.
        (settlement_lines s.accounts c.base_currency direction amount paid_in doc_rate pay_rate, s))
    pay_item direction id i amount paid_in ref actor outbox doc_rate lines
