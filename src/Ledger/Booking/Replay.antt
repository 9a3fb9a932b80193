-- ===== src/Ledger/Booking/Replay.antt =====
-- An event that is delivered again, and a booking that fails.
use iag_finance.Base.{
  ℕ, String, ◌≡◌, false, Option, none, some, List, str_eq, subst, str_eq_refl, arith,
}
use iag_finance.Calendar.{Time}
use iag_finance.Decimal.{Decimal}
use iag_finance.Store.{
  JournalEntry, CreateJournalParams, LineInput, AuditInfo, Store, Context, Action, Result, ok, err,
}
use iag_finance.Ledger.Booking.{
  entry_by_source_event, entry_by_id, insert_posted_entry, next_entry_number, mark_processed,
  assert_balanced, booking, book_tx, book_posted_entry, no_side,
}
use iag_finance.Ledger.Booking.Events.{book_from_event}
use iag_finance.Ledger.Periods.{EventRef}
use iag_finance.Ledger.Booking.Balance.{append_audit-entries}

module _ {D : Type 0} where
  -- The same tables, but for numbers that the sequence has handed out.
  abbrev pub SameTables : Store D → Store D → Type 0
  SameTables t u = u ≡ record t { next_number = u.next_number }

  -- A call that fails leaves the tables alone.
  abbrev pub IsAtomic : {A : Type 0} → Store D → Result A × Store D → Type 0
  IsAtomic s (ok _, t) = Unit
  IsAtomic s (err _, t) = SameTables s t

  -- A delivery that finds the event booked as `e`.
  abbrev pub Redelivered :
      JournalEntry D → Store D → Result (Option (JournalEntry D)) × Store D → Type 0
  Redelivered e t (ok none, u) = ⊥
  Redelivered e t (ok (some f), u) = (f ≡ e) × SameTables t u
  Redelivered e t (err _, u) = SameTables t u

module _ {D : Type 0} ⦃dec : Decimal D⦄ (c : Context) where
  book_posted_entry-again :
      (p : CreateJournalParams D) (event_id event_type : String) (at : Time)
      (side : ℕ → Action D (Unit {0})) (audit : Option AuditInfo) (s : Store D) (e : JournalEntry D)
      → p.source_event_id ≡ some event_id
      → str_eq event_id "" ≡ false
      → entry_by_source_event event_id s.entries ≡ some e
      → Redelivered e s (book_posted_entry c p event_id event_type at side audit s)
  unfolding book_posted_entry book_tx booking insert_posted_entry next_entry_number
  book_posted_entry-again p event_id event_type at side audit s e source named booked = ground arith

  book_from_event-again :
      (ref : EventRef) (description currency : String) (lines : List (LineInput D)) (s : Store D)
      (e : JournalEntry D)
      → str_eq ref.id "" ≡ false
      → entry_by_source_event ref.id s.entries ≡ some e
      → Redelivered e s (book_from_event c ref description currency lines s)
  unfolding book_from_event
  book_from_event-again ref description currency lines s e named booked =
      grind (arith, book_posted_entry-again)

  abbrev Booked : String → Result (Option (JournalEntry D)) × Store D → Type 0
  Booked event_id (ok (some e), t) = entry_by_source_event event_id t.entries ≡ some e
  Booked event_id _ = Unit

  book_posted_entry-Booked :
      (p : CreateJournalParams D) (event_id event_type : String) (at : Time)
      (audit : Option AuditInfo) (s : Store D)
      → p.source_event_id ≡ some event_id
      → str_eq event_id "" ≡ false
      → Booked event_id (book_posted_entry c p event_id event_type at (no_side c) audit s)
  unfolding book_posted_entry book_tx booking insert_posted_entry next_entry_number mark_processed
      assert_balanced entry_by_id entry_by_source_event
  book_posted_entry-Booked p event_id event_type at audit s source named =
      grind (arith, append_audit-entries, str_eq_refl event_id)

  book_from_event-Booked :
      (ref : EventRef) (description currency : String) (lines : List (LineInput D)) (s : Store D)
      → str_eq ref.id "" ≡ false
      → Booked ref.id (book_from_event c ref description currency lines s)
  unfolding book_from_event
  book_from_event-Booked ref description currency lines s named =
      grind (arith, book_posted_entry-Booked)

  pub book_from_event-IsAtomic :
      (ref : EventRef) (description currency : String) (lines : List (LineInput D)) (s : Store D)
      → IsAtomic s (book_from_event c ref description currency lines s)
  unfolding book_from_event book_posted_entry book_tx
  book_from_event-IsAtomic ref description currency lines s = ground arith

module _ {D : Type 0} ⦃dec : Decimal D⦄ where
  -- When an event with an id has been booked as the entry `e`, a second delivery of it, at any
  -- time, with any text, currency and lines, adds nothing to the tables: it returns `e` itself, or
  -- fails in the checks that come before.
  pub book_from_event-Redelivered :
      (c again : Context) (ref : EventRef) (description currency description' currency' : String)
      (lines lines' : List (LineInput D)) (s t : Store D) (e : JournalEntry D)
      → str_eq ref.id "" ≡ false
      → book_from_event c ref description currency lines s ≡ (ok (some e), t)
      → Redelivered e t (book_from_event again ref description' currency' lines' t)
  book_from_event-Redelivered c again ref description currency description' currency' lines lines' s
        t e named first =
      book_from_event-again again ref description' currency' lines' t e named (
        subst (Booked c ref.id) first
          (book_from_event-Booked c ref description currency lines s named))
