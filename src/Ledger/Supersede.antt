-- ===== src/Ledger/Supersede.antt =====
-- SupersedeEntriesBySource of internal/ledger/service.go, which clears the postings of a document.
use iag_finance.Base.{ℕ, String, Bool, true, false, not, ◌&&◌, List, [], ◌∷◌, ◌++◌, if◌then◌else◌}
use iag_finance.Decimal.{Decimal}
use iag_finance.Store.{
  JournalEntry, EntryStatus, reversed, Context, Action, ok, err, Error, not_reversible, not_draft,
  pure, ◌>>=◌,
}
use iag_finance.Ledger.Periods.{is_draft}
use iag_finance.Ledger.Booking.{is_text}
use iag_finance.Ledger.Entries.{delete_draft_entry}
use iag_finance.Ledger.Reversal.{reverse_journal_entry}

abbrev pub is_reversed : EntryStatus → Bool
is_reversed reversed = true
is_reversed _ = false

-- repository.SourceEntry
pub record SourceEntry : Type 0 where
  pub id : ℕ
  pub status : EntryStatus

-- repository.ListEntriesBySource, newest first.
unfoldable pub list_entries_by_source :
    {D : Type 0} → String → String → List (JournalEntry D) → List SourceEntry
list_entries_by_source service correlation [] = []
list_entries_by_source service correlation (e ∷ es) =
    let rest = list_entries_by_source service correlation es in
    if is_text service e.source_service
      && is_text correlation e.correlation_id
      && not (is_reversed e.status)
    then record { id = e.id; status = e.status } ∷ rest
    else rest

pub record SupersedeResult : Type 0 where
  pub reversed_ids : List ℕ
  pub deleted_ids : List ℕ

abbrev pub is_not_draft : Error → Bool
is_not_draft not_draft = true
is_not_draft _ = false

abbrev pub is_not_reversible : Error → Bool
is_not_reversible not_reversible = true
is_not_reversible _ = false

module _ {D : Type 0} ⦃dec : Decimal D⦄ (c : Context) where
  -- The reversal of one entry in the loop; one that somebody else has reversed is passed over.
  unfoldable pub supersede_reverse :
      ℕ → String → String → SupersedeResult → Action D SupersedeResult
  supersede_reverse id reason actor out s =
      let (r, t) = reverse_journal_entry c id reason actor s in
      elim r [
        | ok _ ↦ (ok (record out { reversed_ids = out.reversed_ids ++ (id ∷ []) }), t)
        | err e ↦ (if is_not_reversible e then ok out else err e, t)
      ]

  -- A draft is deleted, or reversed if it was posted in the meantime.
  unfoldable pub supersede_draft : ℕ → String → String → SupersedeResult → Action D SupersedeResult
  supersede_draft id reason actor out s =
      let (r, t) = delete_draft_entry c id s in
      elim r [
        | ok _ ↦ (ok (record out { deleted_ids = out.deleted_ids ++ (id ∷ []) }), t)
        | err x ↦ if is_not_draft x then supersede_reverse id reason actor out t else (err x, t)
      ]

  -- One round of the loop of SupersedeEntriesBySource.
  unfoldable pub supersede_entry :
      SourceEntry → String → String → SupersedeResult → Action D SupersedeResult
  unfolding supersede_draft supersede_reverse
  supersede_entry e reason actor out s =
      if is_draft e.status
      then supersede_draft e.id reason actor out s
      else supersede_reverse e.id reason actor out s

  unfoldable pub supersede_loop :
      List SourceEntry → String → String → SupersedeResult → Action D SupersedeResult
  supersede_loop [] reason actor out = pure out
  supersede_loop (e ∷ es) reason actor out =
      supersede_entry e reason actor out >>= λ more. supersede_loop es reason actor more

  unfoldable pub supersede_entries_by_source :
      String → String → String → String → Action D SupersedeResult
  unfolding supersede_loop
  supersede_entries_by_source service document reason actor s =
      supersede_loop (list_entries_by_source service document s.entries) reason actor
        (record { reversed_ids = []; deleted_ids = [] }) s
