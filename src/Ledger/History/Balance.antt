-- ===== src/Ledger/History/Balance.antt =====
-- Every posted entry balances in base currency, after every ledger call.
use iag_finance.Base.{
  ℕ, String, ◌≡◌, refl, ◌⊎◌, inl, inr, true, Option, some, List, [], ◌∷◌, All, arith, Bool-cases,
  ◌==◌,
}
use iag_finance.Calendar.{Time, Period}
use iag_finance.Decimal.{Decimal}
use iag_finance.Store.{
  JournalEntry, Store, Context, AuditInfo, PeriodStatus, open_period, closed_period,
}
use iag_finance.Ledger.Booking.{entry_by_id, is_balanced, assert_balanced}
use iag_finance.Ledger.Booking.Balance.{IsBalanced, append_audit-entries}
use iag_finance.Ledger.Periods.{set_period_status}
use iag_finance.Ledger.Entries.{
  CreateEntryInput, create_journal_entry, insert_draft, as_posted, mark_posted, mark_entry_posted,
  post_journal_entry, delete_draft_entry, delete_tx, update_entry, delete_entry,
}
use iag_finance.Ledger.Booking.{next_entry_number}
use iag_finance.Ledger.Reversal.{as_reversed, reverse_entry, reverse_tx, reverse_journal_entry}
use iag_finance.Ledger.Entries.Lookup.{IdsBelow, update_entry-below, entry_by_id-update}
use iag_finance.Ledger.History.{HasFreshIds}
use iag_finance.Ledger.History.Steps.{delete_draft_entry-Keeps, no_side-LeavesEntries}
use iag_finance.Ledger.History.Superseding.{
  supersede_loop-Keeps, supersede_entry-after, supersede_entry-Keeps,
}
use iag_finance.Ledger.Supersede.{
  SourceEntry, SupersedeResult, supersede_entry, supersede_loop, supersede_entries_by_source,
}
use iag_finance.Ledger.Booking.{book_posted_entry}
use iag_finance.Ledger.Booking.Events.{book_from_event}
use iag_finance.Ledger.Booking.Balance.{book_tx-IsBalanced}
use iag_finance.Ledger.Periods.{EventRef}
use iag_finance.Store.{LineInput, bind-keeps}

module _ {D : Type 0} ⦃dec : Decimal D⦄ where
  abbrev AllBalanced : List (JournalEntry D) → Type 0
  AllBalanced = All (λ e. is_balanced e ≡ true)

  update-AllBalanced :
      (n k : ℕ) (f : JournalEntry D → JournalEntry D) (es : List (JournalEntry D))
      → IdsBelow n es
      → ((e : JournalEntry D) → entry_by_id k es ≡ some e → is_balanced (f e) ≡ true)
      → AllBalanced es
      → AllBalanced (update_entry k f es)
  unfolding update_entry entry_by_id
  update-AllBalanced n k f [] below ok_f b = tt
  update-AllBalanced n k f (x ∷ es) below ok_f b = elim (Bool-cases (x.id == k)) [
    | inl here ↦
        rw here (ok_f x (rw here), rw (update_entry-below x.id k f es below.1 (ground arith)) b.1)
    | inr other ↦
        rw other
          (b.0, update-AllBalanced x.id k f es below.1 (λ e found. ok_f e (rw other found)) b.1)
  ]

  delete-AllBalanced :
      (k : ℕ) (es : List (JournalEntry D)) → AllBalanced es → AllBalanced (delete_entry k es)
  unfolding delete_entry
  delete-AllBalanced k [] b = tt
  delete-AllBalanced k (x ∷ es) b = ground (arith, delete-AllBalanced k es b.1)

module _ {D : Type 0} ⦃dec : Decimal D⦄ (c : Context) where
  pub create_journal_entry-IsBalanced :
      (in' : CreateEntryInput D) (s : Store D)
      → IsBalanced s
      → IsBalanced (create_journal_entry c in' s).1
  unfolding create_journal_entry insert_draft next_entry_number is_balanced
  create_journal_entry-IsBalanced in' s b = grind arith

  pub delete_draft_entry-IsBalanced :
      (id : ℕ) (s : Store D) → IsBalanced s → IsBalanced (delete_draft_entry c id s).1
  unfolding delete_draft_entry delete_tx
  delete_draft_entry-IsBalanced id s b = grind (arith, delete-AllBalanced)

  pub set_period_status-IsBalanced :
      (p : Period) (status : PeriodStatus) (by : Option ℕ) (s : Store D)
      → IsBalanced s
      → IsBalanced (set_period_status c p status by s).1
  unfolding set_period_status
  set_period_status-IsBalanced p open_period by s b = b
  set_period_status-IsBalanced p closed_period by s b = ground arith

  mark_entry_posted-balance :
      (id : ℕ) (at : Time) (audit : Option AuditInfo) (s : Store D)
      → ((mark_entry_posted c id at audit s).1.entries ≡ s.entries)
        ⊎ (((mark_entry_posted c id at audit s).1.entries
              ≡ update_entry id (as_posted c at) s.entries)
            × ((e : JournalEntry D)
                → entry_by_id id s.entries ≡ some e
                → is_balanced (as_posted c at e) ≡ true))
  unfolding mark_entry_posted mark_posted assert_balanced
  mark_entry_posted-balance id at audit s =
      grind (
        arith,
        append_audit-entries,
        entry_by_id-update id id (as_posted c at) s.entries (λ e. refl),
      )

  pub mark_entry_posted-IsBalanced :
      (id : ℕ) (at : Time) (audit : Option AuditInfo) (s : Store D)
      → HasFreshIds s
      → IsBalanced s
      → IsBalanced (mark_entry_posted c id at audit s).1
  mark_entry_posted-IsBalanced id at audit s h b = elim (mark_entry_posted-balance id at audit s) [
    | inl same ↦ rw same b
    | inr (is, posts) ↦ rw is (update-AllBalanced s.next_id id (as_posted c at) s.entries h posts b)
  ]

  pub post_journal_entry-IsBalanced :
      (id : ℕ) (actor : String) (s : Store D)
      → HasFreshIds s
      → IsBalanced s
      → IsBalanced (post_journal_entry c id actor s).1
  unfolding post_journal_entry
  post_journal_entry-IsBalanced id actor s h b = grind (arith, mark_entry_posted-IsBalanced)

  pub reverse_entry-IsBalanced :
      (id : ℕ) (reason : String) (audit : Option AuditInfo) (s : Store D)
      → HasFreshIds s
      → IsBalanced s
      → IsBalanced (reverse_entry c id reason audit s).1
  unfolding reverse_entry reverse_tx assert_balanced next_entry_number is_balanced entry_by_id
  reverse_entry-IsBalanced id reason audit s h b = grind (
    arith,
    append_audit-entries,
    update-AllBalanced s.next_id id (as_reversed c) s.entries h (λ e found. refl) b,
  )

  pub reverse_journal_entry-IsBalanced :
      (id : ℕ) (reason actor : String) (s : Store D)
      → HasFreshIds s
      → IsBalanced s
      → IsBalanced (reverse_journal_entry c id reason actor s).1
  unfolding reverse_journal_entry
  reverse_journal_entry-IsBalanced id reason actor s h b =
      reverse_entry-IsBalanced id reason _ s h b

  pub book_from_event-IsBalanced :
      (ref : EventRef) (description currency : String) (lines : List (LineInput D)) (s : Store D)
      → IsBalanced s
      → IsBalanced (book_from_event c ref description currency lines s).1
  unfolding book_from_event book_posted_entry
  book_from_event-IsBalanced ref description currency lines s b =
      grind (arith, book_tx-IsBalanced, no_side-LeavesEntries)

  supersede_entry-IsBalanced :
      (e : SourceEntry) (reason actor : String) (out : SupersedeResult) (s : Store D)
      → HasFreshIds s
      → IsBalanced s
      → IsBalanced (supersede_entry c e reason actor out s).1
  supersede_entry-IsBalanced e reason actor out s h b =
      elim (supersede_entry-after c e reason actor out s) [
        | inl is ↦ rw is (reverse_journal_entry-IsBalanced e.id reason actor s h b)
        | inr (inl is) ↦ rw is (delete_draft_entry-IsBalanced e.id s b)
        | inr (inr is) ↦ rw is (
            reverse_journal_entry-IsBalanced e.id reason actor _
              (delete_draft_entry-Keeps c e.id s h).ids (delete_draft_entry-IsBalanced e.id s b))
      ]

  supersede_loop-IsBalanced :
      (es : List SourceEntry) (reason actor : String) (out : SupersedeResult) (s : Store D)
      → HasFreshIds s
      → IsBalanced s
      → IsBalanced (supersede_loop c es reason actor out s).1
  unfolding supersede_loop
  supersede_loop-IsBalanced [] reason actor out s h b = b
  supersede_loop-IsBalanced (e ∷ es) reason actor out s h b =
      (bind-keeps (λ t. HasFreshIds t × IsBalanced t) (supersede_entry c e reason actor out)
        (supersede_loop c es reason actor) s
        (
          (supersede_entry-Keeps c e reason actor out s h).ids,
          supersede_entry-IsBalanced e reason actor out s h b,
        )
        (λ more t (j, k). (
          (supersede_loop-Keeps c es reason actor more t j).ids,
          supersede_loop-IsBalanced es reason actor more t j k,
        ))).1

  pub supersede_entries_by_source-IsBalanced :
      (service document reason actor : String) (s : Store D)
      → HasFreshIds s
      → IsBalanced s
      → IsBalanced (supersede_entries_by_source c service document reason actor s).1
  unfolding supersede_entries_by_source
  supersede_entries_by_source-IsBalanced service document reason actor s h b =
      supersede_loop-IsBalanced _ reason actor _ s h b
