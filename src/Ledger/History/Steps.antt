-- ===== src/Ledger/History/Steps.antt =====
-- What each ledger call does to the entries that are there.
use iag_finance.Base.{
  ℕ, ◌≤◌, ◌<◌, String, ◌≡◌, refl, true, Option, none, some, List, arith, ◌⊎◌, inl, inr,
}
use iag_finance.Calendar.{Time, Period}
use iag_finance.Decimal.{Decimal}
use iag_finance.Store.{
  JournalEntry, Store, Context, Action, CreateJournalParams, AuditInfo, PeriodStatus, open_period,
  closed_period,
}
use iag_finance.Audit.{append_audit, append_chain}
use iag_finance.Ledger.Booking.{
  entry_by_id, book_tx, booking, insert_posted_entry, next_entry_number, assert_balanced,
  mark_processed,
}
use iag_finance.Ledger.Booking.Balance.{LeavesEntries, append_audit-entries}
use iag_finance.Ledger.Periods.{is_draft, set_period_status}
use iag_finance.Ledger.Entries.{
  CreateEntryInput, create_journal_entry, insert_draft, post_journal_entry, mark_entry_posted,
  mark_posted, delete_draft_entry, delete_tx, update_entry, delete_entry,
}
use iag_finance.Ledger.Entries.{as_posted}
use iag_finance.Ledger.Reversal.{as_reversed, reverse_tx, reverse_entry, reverse_journal_entry}
use iag_finance.Ledger.Booking.{is_posted, no_side, book_posted_entry}
use iag_finance.Ledger.Booking.Events.{book_from_event}
use iag_finance.Ledger.Periods.{EventRef}
use iag_finance.Store.{LineInput}
use iag_finance.Ledger.History.{
  Keeps-update, Keeps-delete, Keeps, Adds, AddsTo, Adds-Keeps, HasFreshIds, Keeps-same, Keeps-trans,
}

module _ {D : Type 0} (c : Context) where
  pub append_audit-next_id :
      (a : Option AuditInfo) (s : Store D) → s.next_id ≤ (append_audit c a s).1.next_id
  unfolding append_audit append_chain
  append_audit-next_id none s = ground arith
  append_audit-next_id (some a) s = ground arith

  pub set_period_status-Keeps :
      (p : Period) (status : PeriodStatus) (by : Option ℕ) (s : Store D)
      → HasFreshIds s
      → Keeps s (set_period_status c p status by s).1
  unfolding set_period_status
  set_period_status-Keeps p open_period by s h = Keeps-same s _ h refl (omega arith)
  set_period_status-Keeps p closed_period by s h = Keeps-same s _ h (ground arith) (ground arith)

module _ {D : Type 0} ⦃dec : Decimal D⦄ (c : Context) where
  pub create_journal_entry-Adds :
      (in' : CreateEntryInput D) (s : Store D) → Adds s (create_journal_entry c in' s).1
  unfolding create_journal_entry insert_draft next_entry_number
  create_journal_entry-Adds in' s = grind arith

  pub book_tx-Adds :
      (p : CreateJournalParams D) (event_id event_type : String) (at : Time)
      (side : ℕ → Action D (Unit {0})) (audit : Option AuditInfo) (s : Store D)
      → LeavesEntries side
      → Adds s (book_tx c p event_id event_type at side audit s).1
  unfolding book_tx booking insert_posted_entry next_entry_number assert_balanced entry_by_id
      mark_processed
  book_tx-Adds p event_id event_type at side audit s keeps =
      grind (arith, append_audit-entries, append_audit-next_id, keeps)

  abbrev StaysAt : Store D → Store D → Type 0
  StaysAt s t = (t.entries ≡ s.entries) × (s.next_id ≤ t.next_id)

  abbrev FindsDraft : ℕ → Store D → Type 0
  FindsDraft id s =
      (e : JournalEntry D) → entry_by_id id s.entries ≡ some e → is_draft e.status ≡ true

  delete_draft_entry-cases :
      (id : ℕ) (s : Store D)
      → StaysAt s (delete_draft_entry c id s).1
        ⊎ (((delete_draft_entry c id s).1.entries ≡ delete_entry id s.entries)
            × (s.next_id ≤ (delete_draft_entry c id s).1.next_id)
            × FindsDraft id s)
  unfolding delete_draft_entry delete_tx
  delete_draft_entry-cases id s = ground arith

  pub delete_draft_entry-Keeps :
      (id : ℕ) (s : Store D) → HasFreshIds s → Keeps s (delete_draft_entry c id s).1
  delete_draft_entry-Keeps id s h = elim (delete_draft_entry-cases id s) [
    | inl (same, grows) ↦ Keeps-same s _ h same grows
    | inr (is, grows, drafts) ↦ Keeps-delete s _ id h drafts is grows
  ]

  mark_entry_posted-cases :
      (id : ℕ) (at : Time) (audit : Option AuditInfo) (s : Store D)
      → StaysAt s (mark_entry_posted c id at audit s).1
        ⊎ (((mark_entry_posted c id at audit s).1.entries
              ≡ update_entry id (as_posted c at) s.entries)
            × (s.next_id ≤ (mark_entry_posted c id at audit s).1.next_id)
            × FindsDraft id s)
  unfolding mark_entry_posted mark_posted assert_balanced
  mark_entry_posted-cases id at audit s = grind (arith, append_audit-entries, append_audit-next_id)

  mark_entry_posted-Keeps :
      (id : ℕ) (at : Time) (audit : Option AuditInfo) (s : Store D)
      → HasFreshIds s
      → Keeps s (mark_entry_posted c id at audit s).1
  mark_entry_posted-Keeps id at audit s h = elim (mark_entry_posted-cases id at audit s) [
    | inl (same, grows) ↦ Keeps-same s _ h same grows
    | inr (is, grows, drafts) ↦
        Keeps-update s _ id (as_posted c at) h (λ e. refl)
          (λ e found n. ground (arith, drafts e found)) is grows
  ]

  post_journal_entry-cases :
      (id : ℕ) (actor : String) (s : Store D)
      → StaysAt s (post_journal_entry c id actor s).1
        ⊎ (((post_journal_entry c id actor s).1.entries
              ≡ update_entry id (as_posted c c.now) s.entries)
            × (s.next_id ≤ (post_journal_entry c id actor s).1.next_id)
            × FindsDraft id s)
  unfolding post_journal_entry
  post_journal_entry-cases id actor s = grind (arith, mark_entry_posted-cases)

  pub post_journal_entry-Keeps :
      (id : ℕ) (actor : String) (s : Store D)
      → HasFreshIds s
      → Keeps s (post_journal_entry c id actor s).1
  post_journal_entry-Keeps id actor s h = elim (post_journal_entry-cases id actor s) [
    | inl (same, grows) ↦ Keeps-same s _ h same grows
    | inr (is, grows, drafts) ↦
        Keeps-update s _ id (as_posted c c.now) h (λ e. refl)
          (λ e found n. ground (arith, drafts e found)) is grows
  ]

  abbrev FindsPosted : ℕ → Store D → Type 0
  FindsPosted id s =
      (e : JournalEntry D) → entry_by_id id s.entries ≡ some e → is_posted e.status ≡ true

  reverse_entry-cases :
      (id : ℕ) (reason : String) (audit : Option AuditInfo) (s : Store D)
      → StaysAt s (reverse_entry c id reason audit s).1
        ⊎ (AddsTo
              (update_entry id (as_reversed c) s.entries)
              s.next_id
              (reverse_entry c id reason audit s).1.entries
            × (s.next_id < (reverse_entry c id reason audit s).1.next_id)
            × FindsPosted id s)
  unfolding reverse_entry reverse_tx next_entry_number assert_balanced
  reverse_entry-cases id reason audit s = grind (arith, append_audit-entries, append_audit-next_id)

  reverse_entry-Keeps :
      (id : ℕ) (reason : String) (audit : Option AuditInfo) (s : Store D)
      → HasFreshIds s
      → Keeps s (reverse_entry c id reason audit s).1
  reverse_entry-Keeps id reason audit s h = elim (reverse_entry-cases id reason audit s) [
    | inl (same, grows) ↦ Keeps-same s _ h same grows
    | inr (adds, grows, posts) ↦
        let m : Store D = record s { entries = update_entry id (as_reversed c) s.entries } in
        let k : Keeps s m =
          Keeps-update s m id (as_reversed c) h (λ e. refl)
            (λ e found n. ground (arith, posts e found)) refl (omega arith) in
        Keeps-trans s m _ k (Adds-Keeps m _ k.ids (inr (adds, grows)))
  ]

  pub reverse_journal_entry-Keeps :
      (id : ℕ) (reason actor : String) (s : Store D)
      → HasFreshIds s
      → Keeps s (reverse_journal_entry c id reason actor s).1
  unfolding reverse_journal_entry
  reverse_journal_entry-Keeps id reason actor s h = reverse_entry-Keeps id reason _ s h

  pub create_journal_entry-Keeps :
      (in' : CreateEntryInput D) (s : Store D)
      → HasFreshIds s
      → Keeps s (create_journal_entry c in' s).1
  create_journal_entry-Keeps in' s h = Adds-Keeps s _ h (create_journal_entry-Adds in' s)

  pub no_side-LeavesEntries : LeavesEntries (no_side {D = D} c)
  no_side-LeavesEntries id s = (refl, omega arith)

  book_from_event-Adds :
      (ref : EventRef) (description currency : String) (lines : List (LineInput D)) (s : Store D)
      → Adds s (book_from_event c ref description currency lines s).1
  unfolding book_from_event book_posted_entry
  book_from_event-Adds ref description currency lines s =
      grind (arith, book_tx-Adds, no_side-LeavesEntries)

  pub book_from_event-Keeps :
      (ref : EventRef) (description currency : String) (lines : List (LineInput D)) (s : Store D)
      → HasFreshIds s
      → Keeps s (book_from_event c ref description currency lines s).1
  book_from_event-Keeps ref description currency lines s h =
      Adds-Keeps s _ h (book_from_event-Adds ref description currency lines s)
