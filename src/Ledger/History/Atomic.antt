-- ===== src/Ledger/History/Atomic.antt =====
-- A ledger call that fails leaves no trace but a number of the sequence.
use iag_finance.Base.{Bool, true, false, ℕ, String, ◌≡◌, Option, List, arith}
use iag_finance.Calendar.{Time, Period}
use iag_finance.Decimal.{Decimal}
use iag_finance.Store.{
  Store, Context, Result, ok, err, AuditInfo, LineInput, PeriodStatus, open_period, closed_period,
}
use iag_finance.Ledger.Booking.{next_entry_number}
use iag_finance.Ledger.Booking.Events.{book_from_event}
use iag_finance.Ledger.Booking.Replay.{SameTables, IsAtomic, book_from_event-IsAtomic}
use iag_finance.Ledger.Periods.{EventRef, set_period_status}
use iag_finance.Ledger.Entries.{
  CreateEntryInput, create_journal_entry, post_journal_entry, mark_entry_posted, mark_posted,
  delete_draft_entry,
}
use iag_finance.Ledger.Reversal.{reverse_entry, reverse_journal_entry}

module _ {D : Type 0} ⦃dec : Decimal D⦄ (c : Context) where
  create_journal_entry-IsAtomic :
      (in' : CreateEntryInput D) (s : Store D) → IsAtomic s (create_journal_entry c in' s)
  unfolding create_journal_entry next_entry_number
  create_journal_entry-IsAtomic in' s = ground arith

  mark_entry_posted-IsAtomic :
      (id : ℕ) (at : Time) (audit : Option AuditInfo) (s : Store D)
      → IsAtomic s (mark_entry_posted c id at audit s)
  unfolding mark_entry_posted
  mark_entry_posted-IsAtomic id at audit s = ground arith

  abbrev StaysUnlessDone : Store D → Result Bool × Store D → Type 0
  StaysUnlessDone s (ok false, t) = t ≡ s
  StaysUnlessDone s (ok true, t) = Unit
  StaysUnlessDone s (err _, t) = SameTables s t

  mark_entry_posted-refused :
      (id : ℕ) (at : Time) (audit : Option AuditInfo) (s : Store D)
      → StaysUnlessDone s (mark_entry_posted c id at audit s)
  unfolding mark_entry_posted mark_posted
  mark_entry_posted-refused id at audit s = ground arith

  post_journal_entry-IsAtomic :
      (id : ℕ) (actor : String) (s : Store D) → IsAtomic s (post_journal_entry c id actor s)
  unfolding post_journal_entry
  post_journal_entry-IsAtomic id actor s = grind (arith, mark_entry_posted-refused)

  delete_draft_entry-IsAtomic : (id : ℕ) (s : Store D) → IsAtomic s (delete_draft_entry c id s)
  unfolding delete_draft_entry
  delete_draft_entry-IsAtomic id s = ground arith

  reverse_journal_entry-IsAtomic :
      (id : ℕ) (reason actor : String) (s : Store D)
      → IsAtomic s (reverse_journal_entry c id reason actor s)
  unfolding reverse_journal_entry reverse_entry
  reverse_journal_entry-IsAtomic id reason actor s = ground arith

  set_period_status-IsAtomic :
      (p : Period) (status : PeriodStatus) (by : Option ℕ) (s : Store D)
      → IsAtomic s (set_period_status c p status by s)
  unfolding set_period_status
  set_period_status-IsAtomic p open_period by s = tt
  set_period_status-IsAtomic p closed_period by s = ground arith

  -- Creating, posting, deleting and reversing an entry, booking an event and opening or closing a
  -- period are atomic: a call that returns an error, whichever, leaves every table as it was, and
  -- at most consumes a number of the entry sequence.
  pub calls-IsAtomic :
      (s : Store D) (id : ℕ) (text reason actor currency : String) (by : Option ℕ)
      (in' : CreateEntryInput D) (ref : EventRef) (lines : List (LineInput D)) (p : Period)
      (status : PeriodStatus)
      → IsAtomic s (create_journal_entry c in' s)
        × IsAtomic s (post_journal_entry c id actor s)
        × IsAtomic s (delete_draft_entry c id s)
        × IsAtomic s (reverse_journal_entry c id reason actor s)
        × IsAtomic s (book_from_event c ref text currency lines s)
        × IsAtomic s (set_period_status c p status by s)
  calls-IsAtomic s id text reason actor currency by in' ref lines p status = (
    create_journal_entry-IsAtomic in' s,
    post_journal_entry-IsAtomic id actor s,
    delete_draft_entry-IsAtomic id s,
    reverse_journal_entry-IsAtomic id reason actor s,
    book_from_event-IsAtomic c ref text currency lines s,
    set_period_status-IsAtomic p status by s,
  )
