-- ===== src/Ledger/History/Requests.antt =====
-- The calls of the ledger as one state machine, and what holds after any sequence of them.
use iag_finance.Base.{ℕ, String, ◌≡◌, false, Option, some, List, [], ◌∷◌}
use iag_finance.Calendar.{Period}
use iag_finance.Decimal.{Decimal}
use iag_finance.Store.{JournalEntry, Store, Context, LineInput, PeriodStatus}
use iag_finance.Ledger.Booking.{entry_by_id}
use iag_finance.Ledger.Booking.Events.{book_from_event}
use iag_finance.Ledger.Booking.Balance.{IsBalanced}
use iag_finance.Ledger.Periods.{EventRef, is_draft, set_period_status}
use iag_finance.Ledger.Entries.{
  CreateEntryInput, create_journal_entry, post_journal_entry, delete_draft_entry,
}
use iag_finance.Ledger.Reversal.{reverse_journal_entry}
use iag_finance.Ledger.Supersede.{supersede_entries_by_source}
use iag_finance.Ledger.History.{KeptAs, Keeps, HasFreshIds, Keeps-refl, Keeps-trans}
use iag_finance.Ledger.History.Steps.{
  create_journal_entry-Keeps, post_journal_entry-Keeps, delete_draft_entry-Keeps,
  reverse_journal_entry-Keeps, set_period_status-Keeps, book_from_event-Keeps,
}
use iag_finance.Ledger.History.Superseding.{supersede_entries_by_source-Keeps}
use iag_finance.Ledger.History.Balance.{
  create_journal_entry-IsBalanced, post_journal_entry-IsBalanced, delete_draft_entry-IsBalanced,
  set_period_status-IsBalanced, reverse_journal_entry-IsBalanced, book_from_event-IsBalanced,
  supersede_entries_by_source-IsBalanced,
}

-- The calls of ledger.Service that write entries or periods.
pub data Request (D : Type 0) : Type 0 where
  create_entry : CreateEntryInput D → Request D
  post_entry : ℕ → String → Request D
  delete_draft : ℕ → Request D
  reverse_posted : ℕ → String → String → Request D
  supersede : String → String → String → String → Request D
  book_event : EventRef → String → String → List (LineInput D) → Request D
  set_period : Period → PeriodStatus → Option ℕ → Request D

module _ {D : Type 0} ⦃dec : Decimal D⦄ where
  -- The tables after a request, whether it succeeds or fails.
  unfoldable pub handle : Context → Request D → Store D → Store D
  handle c (create_entry in') s = (create_journal_entry c in' s).1
  handle c (post_entry id actor) s = (post_journal_entry c id actor s).1
  handle c (delete_draft id) s = (delete_draft_entry c id s).1
  handle c (reverse_posted id reason actor) s = (reverse_journal_entry c id reason actor s).1
  handle c (supersede service document reason actor) s =
      (supersede_entries_by_source c service document reason actor s).1
  handle c (book_event ref description currency lines) s =
      (book_from_event c ref description currency lines s).1
  handle c (set_period p status by) s = (set_period_status c p status by s).1

  -- Every request has its own context: its time and its working entity.
  unfoldable pub handle_all : List (Context × Request D) → Store D → Store D
  handle_all [] s = s
  handle_all ((c, r) ∷ rs) s = handle_all rs (handle c r s)

  pub handle-Keeps :
      (c : Context) (r : Request D) (s : Store D) → HasFreshIds s → Keeps s (handle c r s)
  unfolding handle
  handle-Keeps c (create_entry in') s h = create_journal_entry-Keeps c in' s h
  handle-Keeps c (post_entry id actor) s h = post_journal_entry-Keeps c id actor s h
  handle-Keeps c (delete_draft id) s h = delete_draft_entry-Keeps c id s h
  handle-Keeps c (reverse_posted id reason actor) s h =
      reverse_journal_entry-Keeps c id reason actor s h
  handle-Keeps c (supersede service document reason actor) s h =
      supersede_entries_by_source-Keeps c service document reason actor s h
  handle-Keeps c (book_event ref description currency lines) s h =
      book_from_event-Keeps c ref description currency lines s h
  handle-Keeps c (set_period p status by) s h = set_period_status-Keeps c p status by s h

  handle-IsBalanced :
      (c : Context) (r : Request D) (s : Store D)
      → HasFreshIds s
      → IsBalanced s
      → IsBalanced (handle c r s)
  unfolding handle
  handle-IsBalanced c (create_entry in') s h b = create_journal_entry-IsBalanced c in' s b
  handle-IsBalanced c (post_entry id actor) s h b = post_journal_entry-IsBalanced c id actor s h b
  handle-IsBalanced c (delete_draft id) s h b = delete_draft_entry-IsBalanced c id s b
  handle-IsBalanced c (reverse_posted id reason actor) s h b =
      reverse_journal_entry-IsBalanced c id reason actor s h b
  handle-IsBalanced c (supersede service document reason actor) s h b =
      supersede_entries_by_source-IsBalanced c service document reason actor s h b
  handle-IsBalanced c (book_event ref description currency lines) s h b =
      book_from_event-IsBalanced c ref description currency lines s b
  handle-IsBalanced c (set_period p status by) s h b =
      set_period_status-IsBalanced c p status by s b

  handle_all-Keeps :
      (rs : List (Context × Request D)) (s : Store D) → HasFreshIds s → Keeps s (handle_all rs s)
  unfolding handle_all
  handle_all-Keeps [] s h = Keeps-refl s h
  handle_all-Keeps ((c, r) ∷ rs) s h =
      let k = handle-Keeps c r s h in
      Keeps-trans s (handle c r s) _ k (handle_all-Keeps rs (handle c r s) k.ids)

  -- If every posted entry balances in base currency and ids are fresh, so it is after any sequence
  -- of requests, whichever of them fail: no sequence posts an entry out of balance.
  pub handle_all-IsBalanced :
      (rs : List (Context × Request D)) (s : Store D)
      → HasFreshIds s
      → IsBalanced s
      → IsBalanced (handle_all rs s)
  unfolding handle_all
  handle_all-IsBalanced [] s h b = b
  handle_all-IsBalanced ((c, r) ∷ rs) s h b =
      handle_all-IsBalanced rs (handle c r s) (handle-Keeps c r s h).ids
        (handle-IsBalanced c r s h b)

  -- In a ledger whose ids are fresh, an entry that is posted or reversed is still there after any
  -- sequence of requests, with the same lines, number, date, entity and source event, and its
  -- status has at most gone from posted to reversed.
  pub handle_all-KeptAs :
      (rs : List (Context × Request D)) (s : Store D) (id : ℕ) (e : JournalEntry D)
      → HasFreshIds s
      → entry_by_id id s.entries ≡ some e
      → is_draft e.status ≡ false
      → KeptAs e (entry_by_id id (handle_all rs s).entries)
  handle_all-KeptAs rs s id e h found n = (handle_all-Keeps rs s h).kept id e found n
