-- ===== src/Ledger/Lines/Totals.antt =====
-- What the checks on the lines of an entry decide.
use iag_finance.Base.{false, ◌≡◌, sym, ◌∙◌, ◌≢◌, ◌⊎◌, List, [], ◌∷◌, map, arith}
use iag_finance.Decimal.{less_than_or_equal, Decimal, Laws, nought, add, sum, nought_add}
use iag_finance.Store.{LineInput, JournalLine, Result, ok, err, empty_entry, unbalanced_entry}
use iag_finance.Ledger.Lines.{totals, check_totals, validate_balance, validate_entry_lines}

module _ {D : Type 0} ⦃dec : Decimal D⦄ where
  -- The verdict on debits that add up to `d` and credits that add up to `c`.
  abbrev pub Verdict : Result (Unit {0}) → D → D → Type 0
  Verdict (ok _) d c = (d ≡ c) × (d ≢ nought)
  Verdict (err e) d c =
      ((e ≡ empty_entry) × (d ≡ nought) × (c ≡ nought)) ⊎ ((e ≡ unbalanced_entry) × (d ≢ c))

  abbrev pub debits : List (LineInput D) → D
  debits ls = sum (map (λ (l : LineInput D). l.debit) ls)

  abbrev pub credits : List (LineInput D) → D
  credits ls = sum (map (λ (l : LineInput D). l.credit) ls)

module _ {D : Type 0} ⦃dec : Decimal D⦄ (laws : Laws D) where
  pub totals-eq-sum :
      {L : Type 0} (f g : L → D) (d c : D) (ls : List L)
      → totals f g d c ls ≡ (add d (sum (map f ls)), add c (sum (map g ls)))
  unfolding totals
  totals-eq-sum f g d c [] = λ i. (sym (laws.add_nought d) i, sym (laws.add_nought c) i)
  totals-eq-sum f g d c (l ∷ ls) =
      rw (totals-eq-sum f g (add d (f l)) (add c (g l)) ls) (
        rw (laws.add_assoc d (f l) (sum (map f ls))) (rw (laws.add_assoc c (g l) (sum (map g ls)))))

  pub totals_from_nought :
      {L : Type 0} (f g : L → D) (ls : List L)
      → totals f g nought nought ls ≡ (sum (map f ls), sum (map g ls))
  totals_from_nought f g ls =
      totals-eq-sum f g nought nought ls
      ∙ (λ i. (nought_add laws (sum (map f ls)) i, nought_add laws (sum (map g ls)) i))

  check_totals-Verdict : (d c : D) → Verdict (check_totals (d, c)) d c
  unfolding check_totals
  check_totals-Verdict d c = ground (
    arith,
    laws.eq_of_cmp d nought,
    laws.eq_of_cmp c nought,
    laws.eq_of_cmp d c,
    laws.cmp_refl d,
    laws.cmp_refl c,
    laws.cmp_refl nought,
  )

  -- A manual entry is accepted exactly if its debits and its credits add up to the same sum and
  -- that sum is not zero; else it is refused as empty if both are zero, and as unbalanced if they
  -- differ.
  pub validate_balance-Verdict :
      (lines : List (LineInput D))
      → Verdict
          (validate_balance lines)
          (sum (map (λ (l : LineInput D). l.debit) lines))
          (sum (map (λ (l : LineInput D). l.credit) lines))
  unfolding validate_balance
  validate_balance-Verdict lines =
      rw (totals_from_nought (λ (l : LineInput D). l.debit) (λ l. l.credit) lines)
        (check_totals-Verdict _ _)

  -- The same of the stored lines of a draft, which PostJournalEntry checks again.
  pub validate_entry_lines-Verdict :
      (lines : List (JournalLine D))
      → Verdict
          (validate_entry_lines lines)
          (sum (map (λ (l : JournalLine D). l.debit) lines))
          (sum (map (λ (l : JournalLine D). l.credit) lines))
  unfolding validate_entry_lines
  validate_entry_lines-Verdict lines =
      rw (totals_from_nought (λ (l : JournalLine D). l.debit) (λ l. l.credit) lines)
        (check_totals-Verdict _ _)

  -- Lines that add up to the same positive amount on both sides are accepted.
  pub sums_accepted :
      (lines : List (LineInput D)) (a : D)
      → less_than_or_equal a nought ≡ false
      → debits lines ≡ a
      → credits lines ≡ a
      → validate_balance lines ≡ ok tt
  unfolding validate_balance check_totals
  sums_accepted lines a h d c =
      rw (totals_from_nought (λ (l : LineInput D). l.debit) (λ l. l.credit) lines)
        (rw d (rw c (ground (arith, h, laws.cmp_refl a))))
