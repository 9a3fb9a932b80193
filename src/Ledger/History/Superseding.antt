-- ===== src/Ledger/History/Superseding.antt =====
-- What the superseding of a document's entries does to the entries that are there.
use iag_finance.Base.{ℕ, String, ◌≡◌, ◌⊎◌, inl, inr, List, [], ◌∷◌, arith}
use iag_finance.Decimal.{Decimal}
use iag_finance.Store.{bind-keeps, Store, Context}
use iag_finance.Ledger.Entries.{delete_draft_entry}
use iag_finance.Ledger.Reversal.{reverse_journal_entry}
use iag_finance.Ledger.Supersede.{
  SourceEntry, SupersedeResult, supersede_reverse, supersede_draft, supersede_entry, supersede_loop,
  supersede_entries_by_source,
}
use iag_finance.Ledger.History.{Keeps, HasFreshIds, Keeps-refl, Keeps-trans}
use iag_finance.Ledger.History.Steps.{delete_draft_entry-Keeps, reverse_journal_entry-Keeps}

module _ {D : Type 0} ⦃dec : Decimal D⦄ (c : Context) where
  pub supersede_reverse-after :
      (id : ℕ) (reason actor : String) (out : SupersedeResult) (s : Store D)
      → (supersede_reverse c id reason actor out s).1
        ≡ (reverse_journal_entry c id reason actor s).1
  unfolding supersede_reverse
  supersede_reverse-after id reason actor out s = ground arith

  -- A draft is deleted, and if that fails the entry is reversed or left.
  pub supersede_entry-after :
      (e : SourceEntry) (reason actor : String) (out : SupersedeResult) (s : Store D)
      → ((supersede_entry c e reason actor out s).1
          ≡ (reverse_journal_entry c e.id reason actor s).1)
        ⊎ ((supersede_entry c e reason actor out s).1 ≡ (delete_draft_entry c e.id s).1)
        ⊎ ((supersede_entry c e reason actor out s).1
            ≡ (reverse_journal_entry c e.id reason actor (delete_draft_entry c e.id s).1).1)
  unfolding supersede_entry supersede_draft
  supersede_entry-after e reason actor out s = ground (
    arith,
    supersede_reverse-after e.id reason actor out s,
    supersede_reverse-after e.id reason actor out (delete_draft_entry c e.id s).1,
  )

  pub supersede_entry-Keeps :
      (e : SourceEntry) (reason actor : String) (out : SupersedeResult) (s : Store D)
      → HasFreshIds s
      → Keeps s (supersede_entry c e reason actor out s).1
  supersede_entry-Keeps e reason actor out s h = elim (supersede_entry-after e reason actor out s) [
    | inl is ↦ rw is (reverse_journal_entry-Keeps c e.id reason actor s h)
    | inr (inl is) ↦ rw is (delete_draft_entry-Keeps c e.id s h)
    | inr (inr is) ↦
        let k = delete_draft_entry-Keeps c e.id s h in
        rw is (Keeps-trans s _ _ k (reverse_journal_entry-Keeps c e.id reason actor _ k.ids))
  ]

  pub supersede_loop-Keeps :
      (es : List SourceEntry) (reason actor : String) (out : SupersedeResult) (s : Store D)
      → HasFreshIds s
      → Keeps s (supersede_loop c es reason actor out s).1
  unfolding supersede_loop
  supersede_loop-Keeps [] reason actor out s h = Keeps-refl s h
  supersede_loop-Keeps (e ∷ es) reason actor out s h =
      bind-keeps (λ t. Keeps s t) (supersede_entry c e reason actor out)
        (supersede_loop c es reason actor) s (supersede_entry-Keeps e reason actor out s h)
        (λ more t k. Keeps-trans s t _ k (supersede_loop-Keeps es reason actor more t k.ids))

  pub supersede_entries_by_source-Keeps :
      (service document reason actor : String) (s : Store D)
      → HasFreshIds s
      → Keeps s (supersede_entries_by_source c service document reason actor s).1
  unfolding supersede_entries_by_source
  supersede_entries_by_source-Keeps service document reason actor s h =
      supersede_loop-Keeps _ reason actor _ s h
