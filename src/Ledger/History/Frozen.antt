-- ===== src/Ledger/History/Frozen.antt =====
-- The posted entries of a closed period.
use iag_finance.Base.{
  ℕ, String, ◌≡◌, refl, inl, inr, Bool, true, false, ◌&&◌, Option, some, List, [], ◌∷◌, arith,
  if◌then◌else◌, ◌==◌, Bool-cases, ap,
}
use iag_finance.Calendar.{Time, Period, period_of_date, period_of}
use iag_finance.Decimal.{Decimal}
use iag_finance.Store.{JournalEntry, Store, Context, AuditInfo, CreateJournalParams, LineInput}
use iag_finance.Ledger.Booking.{
  is_posted, entry_by_id, book_tx, booking, insert_posted_entry, next_entry_number, mark_processed,
  assert_balanced, book_posted_entry, no_side, resolve_accounting_date,
}
use iag_finance.Ledger.Booking.Events.{book_from_event}
use iag_finance.Ledger.Booking.Balance.{append_audit-entries}
use iag_finance.Ledger.Periods.{EventRef, is_period_closed, is_draft}
use iag_finance.Ledger.Periods.Window.{resolve_posting_window-Verdict}
use iag_finance.Ledger.Entries.{
  CreateEntryInput, create_journal_entry, insert_draft, as_posted, mark_entry_posted, mark_posted,
  post_journal_entry, delete_draft_entry, delete_tx, update_entry, delete_entry,
}
use iag_finance.Ledger.Entries.Lookup.{IdsBelow, update_entry-below, delete_entry-below}
use iag_finance.Ledger.History.{HasFreshIds}

module _ {D : Type 0} where
  abbrev pub is_posted_in : Period → JournalEntry D → Bool
  is_posted_in p e = is_posted e.status && (period_of_date e.accounting_date == p)

  -- The entries that the reports of a period count.
  unfoldable pub posted_in : Period → List (JournalEntry D) → List (JournalEntry D)
  posted_in p [] = []
  posted_in p (e ∷ es) = let rest = posted_in p es in if is_posted_in p e then e ∷ rest else rest

  posted_in-delete :
      (p : Period) (id n : ℕ) (es : List (JournalEntry D))
      → IdsBelow n es
      → ((e : JournalEntry D) → entry_by_id id es ≡ some e → is_draft e.status ≡ true)
      → posted_in p (delete_entry id es) ≡ posted_in p es
  unfolding posted_in delete_entry entry_by_id
  posted_in-delete p id n [] b d = refl
  posted_in-delete p id n (x ∷ es) b d = elim (Bool-cases (x.id == id)) [
    | inl here ↦
        rw here (rw (delete_entry-below x.id id es b.1 (ground arith)) (ground (arith, d x)))
    | inr other ↦ rw other (
        ap (λ r. if is_posted_in p x then x ∷ r else r)
          (posted_in-delete p id x.id es b.1 (λ e found. d e (rw other found))))
  ]

  posted_in-update :
      (p : Period) (id n : ℕ) (f : JournalEntry D → JournalEntry D) (es : List (JournalEntry D))
      → IdsBelow n es
      → ((e : JournalEntry D)
          → entry_by_id id es ≡ some e
          → (is_posted_in p e ≡ false) × (is_posted_in p (f e) ≡ false))
      → posted_in p (update_entry id f es) ≡ posted_in p es
  unfolding posted_in update_entry entry_by_id
  posted_in-update p id n f [] b d = refl
  posted_in-update p id n f (x ∷ es) b d = elim (Bool-cases (x.id == id)) [
    | inl here ↦
        let (before, after) = d x (rw here) in
        rw here (rw (update_entry-below x.id id f es b.1 (ground arith)) (rw (before, after)))
    | inr other ↦ rw other (
        ap (λ r. if is_posted_in p x then x ∷ r else r)
          (posted_in-update p id x.id f es b.1 (λ e found. d e (rw other found))))
  ]

module _ {D : Type 0} ⦃dec : Decimal D⦄ (c : Context) (p : Period) where
  pub delete_draft_entry-posted_in :
      (id : ℕ) (s : Store D)
      → HasFreshIds s
      → posted_in p (delete_draft_entry c id s).1.entries ≡ posted_in p s.entries
  unfolding delete_draft_entry delete_tx
  delete_draft_entry-posted_in id s h = ground (arith, posted_in-delete p id s.next_id s.entries h)

  pub create_journal_entry-posted_in :
      (in' : CreateEntryInput D) (s : Store D)
      → posted_in p (create_journal_entry c in' s).1.entries ≡ posted_in p s.entries
  unfolding create_journal_entry insert_draft next_entry_number posted_in
  create_journal_entry-posted_in in' s = ground arith

  mark_entry_posted-posted_in :
      (id : ℕ) (at : Time) (audit : Option AuditInfo) (s : Store D)
      → HasFreshIds s
      → is_period_closed p s.periods ≡ true
      → posted_in p (mark_entry_posted c id at audit s).1.entries ≡ posted_in p s.entries
  unfolding mark_entry_posted mark_posted assert_balanced
  mark_entry_posted-posted_in id at audit s h closed =
      grind
        (arith, append_audit-entries, posted_in-update p id s.next_id (as_posted c at) s.entries h)

  pub post_journal_entry-posted_in :
      (id : ℕ) (actor : String) (s : Store D)
      → HasFreshIds s
      → is_period_closed p s.periods ≡ true
      → posted_in p (post_journal_entry c id actor s).1.entries ≡ posted_in p s.entries
  unfolding post_journal_entry
  post_journal_entry-posted_in id actor s h closed = grind (arith, mark_entry_posted-posted_in)

  -- What is filed has a date of a period that is not closed.
  abbrev FilesOpen : CreateJournalParams D → Store D → Type 0
  FilesOpen q s =
      is_period_closed (period_of_date (resolve_accounting_date q.accounting_date c.now)) s.periods
      ≡ false

  book_posted_entry-posted_in :
      (q : CreateJournalParams D) (event_id event_type : String) (audit : Option AuditInfo)
      (s : Store D)
      → FilesOpen q s
      → is_period_closed p s.periods ≡ true
      → posted_in p (book_posted_entry c q event_id event_type c.now (no_side c) audit s).1.entries
        ≡ posted_in p s.entries
  unfolding book_posted_entry book_tx booking insert_posted_entry next_entry_number mark_processed
      assert_balanced posted_in
  book_posted_entry-posted_in q event_id event_type audit s files closed =
      grind (arith, append_audit-entries)

  pub book_from_event-posted_in :
      (ref : EventRef) (description currency : String) (lines : List (LineInput D)) (s : Store D)
      → is_period_closed p s.periods ≡ true
      → posted_in p (book_from_event c ref description currency lines s).1.entries
        ≡ posted_in p s.entries
  unfolding book_from_event period_of
  book_from_event-posted_in ref description currency lines s closed =
      grind (arith, book_posted_entry-posted_in, resolve_posting_window-Verdict c.now ref s.periods)
