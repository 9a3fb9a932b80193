-- ===== src/Ledger/Trial/Reversal.antt =====
-- What a reversal takes out of the trial balance.
use iag_finance.Base.{
  ℕ, String, ◌≡◌, ◌∙◌, sym, ap, refl, inl, inr, Bool, true, false, Option, some, List, [], ◌∷◌,
  arith, if◌then◌else◌, ◌==◌, Bool-cases,
}
use iag_finance.Calendar.{Date}
use iag_finance.Decimal.{Decimal, Laws, nought, add, nought_add, add_left_comm}
use iag_finance.Store.{JournalLine, JournalEntry, Store, Context, Result, ok, err}
use iag_finance.Ledger.Lines.{cons_result}
use iag_finance.Ledger.Booking.{entry_by_id, next_entry_number, assert_balanced}
use iag_finance.Ledger.Booking.Balance.{append_audit-entries}
use iag_finance.Ledger.Entries.{update_entry}
use iag_finance.Ledger.Entries.Lookup.{IdsBelow, update_entry-below}
use iag_finance.Ledger.Reversal.{
  mirror, mirror_lines, as_reversed, reverse_tx, reverse_entry, reverse_journal_entry,
}
use iag_finance.Ledger.History.{HasFreshIds}
use iag_finance.Ledger.Trial.{in_range, sum_lines, sum_entries}

module _ {D : Type 0} ⦃dec : Decimal D⦄ where
  -- What an entry adds to the row of an account.
  abbrev pub share : (JournalLine D → D) → (JournalEntry D → Bool) → ℕ → JournalEntry D → D
  share side counts account e = if counts e then sum_lines side account e.lines else nought

  -- One of the two base columns.
  abbrev pub base_side : Bool → JournalLine D → D
  base_side true l = l.debit_base
  base_side false l = l.credit_base

module _ {D : Type 0} ⦃dec : Decimal D⦄ (laws : Laws D) (c : Context) where
  sum_entries-cons :
      (side : JournalLine D → D) (counts : JournalEntry D → Bool) (account : ℕ) (e : JournalEntry D)
      (es : List (JournalEntry D))
      → sum_entries side counts account (e ∷ es)
        ≡ add (share side counts account e) (sum_entries side counts account es)
  unfolding sum_entries
  sum_entries-cons side counts account e es =
      ground (arith, nought_add laws (sum_entries side counts account es))

  mirror_lines-nought :
      (b : Bool) (account : ℕ) (ls rows : List (JournalLine D))
      → mirror_lines c ls ≡ ok rows
      → sum_lines (base_side b) account rows ≡ nought
  unfolding mirror_lines cons_result sum_lines mirror
  mirror_lines-nought b account [] rows h = ground arith
  mirror_lines-nought b account (l ∷ ls) [] h = ground arith
  mirror_lines-nought b account (l ∷ ls) (r ∷ rows) h =
      ground (arith, mirror_lines-nought b account ls rows, laws.add_nought nought)

  reversed-share :
      (side : JournalLine D → D) (from to : Option Date) (entities : List ℕ) (account : ℕ)
      (e : JournalEntry D)
      → share side (in_range from to entities) account (as_reversed c e) ≡ nought
  unfolding in_range
  reversed-share side from to entities account e = refl

  update-share :
      (side : JournalLine D → D) (from to : Option Date) (entities : List ℕ) (account k n : ℕ)
      (es : List (JournalEntry D)) (e : JournalEntry D)
      → IdsBelow n es
      → entry_by_id k es ≡ some e
      → add
          (share side (in_range from to entities) account e)
          (sum_entries side (in_range from to entities) account (update_entry k (as_reversed c) es))
        ≡ sum_entries side (in_range from to entities) account es
  unfolding update_entry entry_by_id
  update-share side from to entities account k n [] e b found = ground arith
  update-share side from to entities account k n (x ∷ es) e b found =
      elim (Bool-cases (x.id == k)) [
        | inl here ↦
            let is_x : e ≡ x = ground (arith, found, here) in
            rw here (
              rw (update_entry-below x.id k (as_reversed c) es b.1 (ground arith)) (
                rw is_x (
                  ap (add (share side (in_range from to entities) account x)) (
                    sum_entries-cons side (in_range from to entities) account (as_reversed c x) es
                    ∙ rw (reversed-share side from to entities account x) (nought_add laws _))
                  ∙ sym (sum_entries-cons side (in_range from to entities) account x es))))
        | inr other ↦ rw other (
            ap (add (share side (in_range from to entities) account e)) (
              sum_entries-cons side (in_range from to entities) account x
                (update_entry k (as_reversed c) es))
            ∙ add_left_comm laws (share side (in_range from to entities) account e)
                (share side (in_range from to entities) account x) _
            ∙ ap (add (share side (in_range from to entities) account x))
                (update-share side from to entities account k x.id es e b.1 (ground (arith, found)))
            ∙ sym (sum_entries-cons side (in_range from to entities) account x es))
      ]

  abbrev pub Undone :
      (JournalLine D → D)
      → (JournalEntry D → Bool)
      → ℕ
      → JournalEntry D
      → Store D
      → Result (Option (JournalEntry D)) × Store D
      → Type 0
  Undone side counts account e s (ok _, t) =
      add (share side counts account e) (sum_entries side counts account t.entries)
      ≡ sum_entries side counts account s.entries
  Undone side counts account e s (err _, t) = t.entries ≡ s.entries

  reversal-share :
      (b : Bool) (from to : Option Date) (entities : List ℕ) (account : ℕ) (e r : JournalEntry D)
      → mirror_lines c e.lines ≡ ok r.lines
      → share (base_side b) (in_range from to entities) account r ≡ nought
  reversal-share b from to entities account e r h =
      ground (arith, mirror_lines-nought b account e.lines r.lines h)

  -- The entries of a store after a reversal that succeeded.
  abbrev Reversed : ℕ → Store D → JournalEntry D → List (JournalEntry D) → Type 0
  Reversed id s e [] = ⊥
  Reversed id s e (r ∷ rest) =
      (rest ≡ update_entry id (as_reversed c) s.entries) × (mirror_lines c e.lines ≡ ok r.lines)

  abbrev ReversedOr :
      ℕ → Store D → JournalEntry D → Result (Option (JournalEntry D)) × Store D → Type 0
  ReversedOr id s e (ok _, t) = Reversed id s e t.entries
  ReversedOr id s e (err _, t) = t.entries ≡ s.entries

  reverse_journal_entry-Reversed :
      (id : ℕ) (reason actor : String) (s : Store D) (e : JournalEntry D)
      → entry_by_id id s.entries ≡ some e
      → ReversedOr id s e (reverse_journal_entry c id reason actor s)
  unfolding reverse_journal_entry reverse_entry reverse_tx next_entry_number assert_balanced
  reverse_journal_entry-Reversed id reason actor s e found = grind (arith, append_audit-entries)

  Reversed-sum :
      (b : Bool) (from to : Option Date) (entities : List ℕ) (account id : ℕ) (s : Store D)
      (e : JournalEntry D) (es : List (JournalEntry D))
      → HasFreshIds s
      → entry_by_id id s.entries ≡ some e
      → Reversed id s e es
      → add
          (share (base_side b) (in_range from to entities) account e)
          (sum_entries (base_side b) (in_range from to entities) account es)
        ≡ sum_entries (base_side b) (in_range from to entities) account s.entries
  Reversed-sum b from to entities account id s e [] h found r = elim r [ ]
  Reversed-sum b from to entities account id s e (x ∷ rest) h found (same, mirrored) =
      ap (add (share (base_side b) (in_range from to entities) account e)) (
        sum_entries-cons (base_side b) (in_range from to entities) account x rest
        ∙ rw (reversal-share b from to entities account e x mirrored) (nought_add laws _)
        ∙ ap (sum_entries (base_side b) (in_range from to entities) account) same)
      ∙ update-share (base_side b) from to entities account id s.next_id s.entries e h found

  -- In a ledger whose ids are fresh, reversing an entry takes exactly its own base amounts out of
  -- both columns of the trial balance, for every account, any range of dates and any set of
  -- entities: the entry no longer counts and its reversal adds nothing. A reversal that fails
  -- leaves the entries alone.
  pub reverse_journal_entry-Undone :
      (b : Bool) (from to : Option Date) (entities : List ℕ) (account id : ℕ)
      (reason actor : String) (s : Store D) (e : JournalEntry D)
      → HasFreshIds s
      → entry_by_id id s.entries ≡ some e
      → Undone
          (base_side b)
          (in_range from to entities)
          account
          e
          s
          (reverse_journal_entry c id reason actor s)
  reverse_journal_entry-Undone b from to entities account id reason actor s e h found =
      by_result (reverse_journal_entry c id reason actor s)
        (reverse_journal_entry-Reversed id reason actor s e found)
    where
      by_result :
          (r : Result (Option (JournalEntry D)) × Store D)
          → ReversedOr id s e r
          → Undone (base_side b) (in_range from to entities) account e s r
      by_result (ok o, t) k = Reversed-sum b from to entities account id s e t.entries h found k
      by_result (err x, t) k = k
