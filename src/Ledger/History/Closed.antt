-- ===== src/Ledger/History/Closed.antt =====
-- A closed period over any sequence of calls that neither reverse entries nor open it again.
use iag_finance.Base.{
  ℕ, String, ◌≡◌, ◌∙◌, refl, Bool, true, false, not, Option, none, some, List, [], ◌∷◌, ◌==◌, arith,
  All,
}
use iag_finance.Calendar.{Time, Period}
use iag_finance.Decimal.{Decimal}
use iag_finance.Store.{
  Store, Context, AuditInfo, CreateJournalParams, LineInput, PeriodStatus, open_period,
  closed_period,
}
use iag_finance.Audit.{append_audit, append_chain}
use iag_finance.Ledger.Booking.{
  book_tx, booking, insert_posted_entry, next_entry_number, mark_processed, assert_balanced,
  book_posted_entry, no_side,
}
use iag_finance.Ledger.Booking.Events.{book_from_event}
use iag_finance.Ledger.Periods.{EventRef, is_period_closed, set_period_status}
use iag_finance.Ledger.Periods.Closing.{find_period-upsert}
use iag_finance.Ledger.Entries.{
  CreateEntryInput, create_journal_entry, insert_draft, mark_entry_posted, mark_posted,
  post_journal_entry, delete_draft_entry, delete_tx,
}
use iag_finance.Ledger.History.{HasFreshIds}
use iag_finance.Ledger.History.Frozen.{
  posted_in, create_journal_entry-posted_in, post_journal_entry-posted_in,
  delete_draft_entry-posted_in, book_from_event-posted_in,
}
use iag_finance.Ledger.History.Requests.{
  Request, create_entry, post_entry, delete_draft, reverse_posted, supersede, book_event,
  set_period, handle, handle_all, handle-Keeps,
}

-- The requests that the guard on a closed period covers.
abbrev pub respects : {D : Type 0} → Period → Request D → Bool
respects p (reverse_posted id reason actor) = false
respects p (supersede service document reason actor) = false
respects p (set_period q open_period by) = not (q == p)
respects p _ = true

module _ {D : Type 0} ⦃dec : Decimal D⦄ (c : Context) where
  append_audit-periods :
      (a : Option AuditInfo) (s : Store D) → (append_audit c a s).1.periods ≡ s.periods
  unfolding append_audit append_chain
  append_audit-periods none s = refl
  append_audit-periods (some a) s = ground arith

  create_journal_entry-periods :
      (in' : CreateEntryInput D) (s : Store D)
      → (create_journal_entry c in' s).1.periods ≡ s.periods
  unfolding create_journal_entry insert_draft next_entry_number
  create_journal_entry-periods in' s = ground arith

  mark_entry_posted-periods :
      (id : ℕ) (at : Time) (audit : Option AuditInfo) (s : Store D)
      → (mark_entry_posted c id at audit s).1.periods ≡ s.periods
  unfolding mark_entry_posted mark_posted assert_balanced
  mark_entry_posted-periods id at audit s = grind (arith, append_audit-periods)

  post_journal_entry-periods :
      (id : ℕ) (actor : String) (s : Store D)
      → (post_journal_entry c id actor s).1.periods ≡ s.periods
  unfolding post_journal_entry
  post_journal_entry-periods id actor s = grind (arith, mark_entry_posted-periods)

  delete_draft_entry-periods :
      (id : ℕ) (s : Store D) → (delete_draft_entry c id s).1.periods ≡ s.periods
  unfolding delete_draft_entry delete_tx
  delete_draft_entry-periods id s = ground arith

  book_posted_entry-periods :
      (p : CreateJournalParams D) (event_id event_type : String) (at : Time)
      (audit : Option AuditInfo) (s : Store D)
      → (book_posted_entry c p event_id event_type at (no_side c) audit s).1.periods ≡ s.periods
  unfolding book_posted_entry book_tx booking insert_posted_entry next_entry_number mark_processed
      assert_balanced
  book_posted_entry-periods p event_id event_type at audit s = grind (arith, append_audit-periods)

  book_from_event-periods :
      (ref : EventRef) (description currency : String) (lines : List (LineInput D)) (s : Store D)
      → (book_from_event c ref description currency lines s).1.periods ≡ s.periods
  unfolding book_from_event
  book_from_event-periods ref description currency lines s =
      grind (arith, book_posted_entry-periods)

  -- The period stays closed, and its posted entries stay as they are.
  abbrev StaysClosed : Period → Store D → Store D → Type 0
  StaysClosed p s t =
      (is_period_closed p t.periods ≡ true) × (posted_in p t.entries ≡ posted_in p s.entries)

  set_period_status-StaysClosed :
      (p q : Period) (status : PeriodStatus) (by : Option ℕ) (s : Store D)
      → is_period_closed p s.periods ≡ true
      → respects {D = D} p (set_period q status by) ≡ true
      → StaysClosed p s (set_period_status c q status by s).1
  unfolding set_period_status is_period_closed
  set_period_status-StaysClosed p q status by s h r = ground (
    arith,
    find_period-upsert p
        (record { period = q; status = closed_period; closed_at = some c.now; closed_by = by })
        s.periods,
    find_period-upsert p
        (record { period = q; status = open_period; closed_at = none; closed_by = none }) s.periods,
  )

  handle-StaysClosed :
      (p : Period) (r : Request D) (s : Store D)
      → HasFreshIds s
      → is_period_closed p s.periods ≡ true
      → respects p r ≡ true
      → StaysClosed p s (handle c r s)
  unfolding handle
  handle-StaysClosed p (create_entry in') s f h r =
      (rw (create_journal_entry-periods in' s) h, create_journal_entry-posted_in c p in' s)
  handle-StaysClosed p (post_entry id actor) s f h r = (
    rw (post_journal_entry-periods id actor s) h,
    post_journal_entry-posted_in c p id actor s f h,
  )
  handle-StaysClosed p (delete_draft id) s f h r =
      (rw (delete_draft_entry-periods id s) h, delete_draft_entry-posted_in c p id s f)
  handle-StaysClosed p (reverse_posted id reason actor) s f h r = ground arith
  handle-StaysClosed p (supersede service document reason actor) s f h r = ground arith
  handle-StaysClosed p (book_event ref description currency lines) s f h r = (
    rw (book_from_event-periods ref description currency lines s) h,
    book_from_event-posted_in c p ref description currency lines s h,
  )
  handle-StaysClosed p (set_period q status by) s f h r =
      set_period_status-StaysClosed p q status by s h r

module _ {D : Type 0} ⦃dec : Decimal D⦄ where
  -- Once a period is closed, in a ledger whose ids are fresh, no sequence of requests changes its
  -- posted entries, as long as none of them reverses or supersedes an entry, or opens that period
  -- again.
  pub handle_all-posted_in :
      (p : Period) (rs : List (Context × Request D)) (s : Store D)
      → HasFreshIds s
      → is_period_closed p s.periods ≡ true
      → All (λ r. respects p r.1 ≡ true) rs
      → posted_in p (handle_all rs s).entries ≡ posted_in p s.entries
  unfolding handle_all
  handle_all-posted_in p [] s f h all = refl
  handle_all-posted_in p ((c, r) ∷ rs) s f h (here, later) =
      let (closed, same) = handle-StaysClosed c p r s f h here in
      handle_all-posted_in p rs (handle c r s) (handle-Keeps c r s f).ids closed later ∙ same
