-- ===== src/Payments/Replay.antt =====
-- A payment that is sent again.
use iag_finance.Base.{
  ℕ, String, ◌≡◌, refl, true, false, Option, none, some, ◌∷◌, arith, str_eq, str_eq_refl,
}
use iag_finance.Decimal.{Decimal}
use iag_finance.Store.{
  Payment, Store, Context, Result, ok, err, AuditInfo, JournalEntry, OutboxEvent,
}
use iag_finance.Audit.{append_audit, append_chain}
use iag_finance.Ledger.Booking.{
  next_entry_number, insert_posted_entry, mark_processed, assert_balanced, is_event_processed,
  entry_by_source_event,
}
use iag_finance.Payments.Apply.{
  update_item, insert_payment, enqueue_outbox, enqueue_if, payment_by_source_event,
  payment_by_entry,
}
use iag_finance.Payments.Journal.{
  PaymentWithJournalParams, payment_tx, book_payment, record_payment, apply_payment_with_journal,
}

abbrev map_option : {A B : Type 0} → (A → B) → Option A → Option B
map_option f none = none
map_option f (some a) = some (f a)

module _ {D : Type 0} ⦃dec : Decimal D⦄ (c : Context) where
  append_audit-rows :
      (a : Option AuditInfo) (s : Store D)
      → ((append_audit c a s).1.entries ≡ s.entries)
        × ((append_audit c a s).1.payments ≡ s.payments)
        × ((append_audit c a s).1.processed ≡ s.processed)
  unfolding append_audit append_chain
  append_audit-rows none s = (refl, refl, refl)
  append_audit-rows (some a) s = ground arith

  enqueue_if-rows :
      (o : Option OutboxEvent) (s : Store D)
      → ((enqueue_if o s).1.entries ≡ s.entries)
        × ((enqueue_if o s).1.payments ≡ s.payments)
        × ((enqueue_if o s).1.processed ≡ s.processed)
  unfolding enqueue_outbox
  enqueue_if-rows none s = (refl, refl, refl)
  enqueue_if-rows (some ev) s = ground arith

  -- The event has been processed, and its payment is found.
  abbrev Recorded : String → Result (Payment D) × Store D → Type 0
  Recorded event_id (err e, t) = Unit
  Recorded event_id (ok row, t) =
      (is_event_processed event_id t.processed ≡ true)
      × (payment_by_source_event event_id t ≡ ok row)

  abbrev EntryOf : String → Result ℕ × Store D → Type 0
  EntryOf event_id (err e, t) = Unit
  EntryOf event_id (ok entry, t) =
      (is_event_processed event_id t.processed ≡ true)
      × (map_option (λ (e : JournalEntry D). e.id) (entry_by_source_event event_id t.entries)
          ≡ some entry)

  book_payment-EntryOf :
      (p : PaymentWithJournalParams D) (s : Store D)
      → str_eq p.event_id "" ≡ false
      → EntryOf p.event_id (book_payment c p s)
  unfolding book_payment next_entry_number insert_posted_entry mark_processed is_event_processed
      entry_by_source_event
  book_payment-EntryOf p s named = ground (arith, str_eq_refl p.event_id)

  abbrev RowOf : ℕ → Store D → Result (Payment D) × Store D → Type 0
  RowOf entry s (err e, t) = Unit
  RowOf entry s (ok row, t) =
      (t.entries ≡ s.entries)
      × (t.processed ≡ s.processed)
      × (t.payments ≡ row ∷ s.payments)
      × (row.journal_entry_id ≡ entry)

  record_payment-RowOf :
      (p : PaymentWithJournalParams D) (audit : Option AuditInfo) (entry : ℕ) (s : Store D)
      → RowOf entry s (record_payment c p audit entry s)
  unfolding record_payment insert_payment assert_balanced
  record_payment-RowOf p audit entry s = grind (arith, append_audit-rows, enqueue_if-rows)

  payment_tx-Recorded :
      (p : PaymentWithJournalParams D) (audit : Option AuditInfo) (s : Store D)
      → str_eq p.event_id "" ≡ false
      → Recorded p.event_id (payment_tx c p audit s)
  unfolding payment_tx update_item payment_by_source_event payment_by_entry
  payment_tx-Recorded p audit s named = grind (arith, book_payment-EntryOf, record_payment-RowOf)

  -- When a payment with an event id that was new has succeeded, a second call for the same event,
  -- with whatever else, returns the same payment and changes nothing: a receipt that is sent again
  -- is not applied twice.
  pub apply_payment_with_journal-again :
      (p q : PaymentWithJournalParams D) (audit audit' : Option AuditInfo) (s t : Store D)
      (row : Payment D)
      → str_eq p.event_id "" ≡ false
      → q.event_id ≡ p.event_id
      → is_event_processed p.event_id s.processed ≡ false
      → apply_payment_with_journal c p audit s ≡ (ok row, t)
      → apply_payment_with_journal c q audit' t ≡ (ok row, t)
  unfolding apply_payment_with_journal
  apply_payment_with_journal-again p q audit audit' s t row named same new first =
      grind (arith, payment_tx-Recorded p audit s named)
