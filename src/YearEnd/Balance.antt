-- ===== src/YearEnd/Balance.antt =====
-- The closing entry balances.
use iag_finance.Base.{
  String, ◌≡◌, ◌⊎◌, refl, sym, ap, ◌∙◌, subst, Bool, true, false, inl, inr, List, [], ◌∷◌, ◌++◌,
  map, arith, if◌then◌else◌,
}
use iag_finance.Decimal.{
  Decimal, Laws, nought, add, sub, neg, sum, ◌≼◌, is_zero, less_than_or_equal, nought_add,
  add-sub_cancel, add_left_comm, add-neg, add_nonneg, still_positive, ≼_refl,
}
use iag_finance.Store.{LineInput, ok}
use iag_finance.Ledger.Lines.{validate_balance}
use iag_finance.Ledger.Booking.{is_empty}
use iag_finance.Ledger.Lines.Totals.{debits, credits, sums_accepted}
use iag_finance.YearEnd.{AccountBalance, zeroing_line, closing_lines, earnings_lines}

module _ {D : Type 0} ⦃dec : Decimal D⦄ (laws : Laws D) where
  -- The line takes exactly the balance out of its account.
  zeroing_line-zeroes :
      (code : String) (b : D)
      → ((zeroing_line code b true).debit ≡ add (zeroing_line code b true).credit b)
        × ((zeroing_line code b false).credit ≡ add (zeroing_line code b false).debit b)
  unfolding zeroing_line
  zeroing_line-zeroes code b = ground (arith, add-neg laws b, nought_add laws b)

  zeroing_line-nonneg :
      (code : String) (b : D) (side : Bool)
      → (nought ≼ (zeroing_line code b side).debit) × (nought ≼ (zeroing_line code b side).credit)
  unfolding zeroing_line
  zeroing_line-nonneg code b side = ground (
    arith,
    laws.cmp_add b nought (neg b),
    laws.add_neg b,
    nought_add laws (neg b),
    laws.cmp_flip b nought,
    laws.cmp_refl nought,
    laws.cmp_flip nought (neg b),
  )

  zeroing_line-positive :
      (code : String) (b : D) (side : Bool)
      → is_zero b ≡ false
      → (less_than_or_equal (zeroing_line code b side).debit nought ≡ false)
        ⊎ (less_than_or_equal (zeroing_line code b side).credit nought ≡ false)
  unfolding zeroing_line
  zeroing_line-positive code b side h = ground (
    arith,
    laws.cmp_add b nought (neg b),
    laws.add_neg b,
    nought_add laws (neg b),
    laws.cmp_flip b nought,
    laws.cmp_flip nought (neg b),
  )

  abbrev lines_of : D → List (AccountBalance D) → List (LineInput D)
  lines_of net bs = (closing_lines net bs).0

  abbrev net_of : D → List (AccountBalance D) → D
  net_of net bs = (closing_lines net bs).1

  revenue_step :
      (dd cc b d c net n : D)
      → dd ≡ add cc b
      → add d (add net b) ≡ add c n
      → add (add dd d) net ≡ add (add cc c) n
  revenue_step dd cc b d c net n h k = rw h (
      ap (λ t. add t net) (laws.add_assoc cc b d)
      ∙ laws.add_assoc cc (add b d) net
      ∙ ap (add cc) (
          laws.add_assoc b d net
          ∙ add_left_comm laws b d net
          ∙ ap (add d) (laws.add_comm b net)
          ∙ k)
      ∙ sym (laws.add_assoc cc c n))

  expense_step :
      (dd cc b d c net n : D)
      → cc ≡ add dd b
      → add d (sub net b) ≡ add c n
      → add (add dd d) net ≡ add (add cc c) n
  expense_step dd cc b d c net n h k = rw h (
      laws.add_assoc dd d net
      ∙ ap (add dd) (
          ap (add d) (sym (add-sub_cancel laws net b))
          ∙ add_left_comm laws d b (sub net b)
          ∙ ap (add b) k
          ∙ sym (laws.add_assoc b c n))
      ∙ sym (laws.add_assoc dd (add b c) n)
      ∙ ap (λ t. add t n) (sym (laws.add_assoc dd b c)))

  abbrev next_net : D → D → Bool → Bool → D
  next_net net b z side = if z then net else if side then add net b else sub net b

  abbrev with_line : Bool → LineInput D → List (LineInput D) → List (LineInput D)
  with_line z l ls = if z then ls else l ∷ ls

  closing_step :
      (code : String) (net b : D) (bs : List (AccountBalance D)) (z side : Bool)
      → ((m : D) → add (debits (lines_of m bs)) m ≡ add (credits (lines_of m bs)) (net_of m bs))
      → let m = next_net net b z side in
        let ls = with_line z (zeroing_line code b side) (lines_of m bs) in
        add (debits ls) net ≡ add (credits ls) (net_of m bs)
  closing_step code net b bs true side ih = ih net
  closing_step code net b bs false true ih =
      let m = add net b in
      let l = zeroing_line code b true in
      revenue_step l.debit l.credit b (debits (lines_of m bs)) (credits (lines_of m bs)) net
        (net_of m bs) (zeroing_line-zeroes code b).0 (ih m)
  closing_step code net b bs false false ih =
      let m = sub net b in
      let l = zeroing_line code b false in
      expense_step l.debit l.credit b (debits (lines_of m bs)) (credits (lines_of m bs)) net
        (net_of m bs) (zeroing_line-zeroes code b).1 (ih m)

  add_line :
      (z : Bool) (l : LineInput D) (ls : List (LineInput D))
      → (nought ≼ l.debit) × (nought ≼ l.credit)
      → (nought ≼ debits ls) × (nought ≼ credits ls)
      → (nought ≼ debits (with_line z l ls)) × (nought ≼ credits (with_line z l ls))
  add_line true l ls h k = k
  add_line false l ls h k =
      (add_nonneg laws l.debit (debits ls) h.0 k.0, add_nonneg laws l.credit (credits ls) h.1 k.1)

  closing_lines-sum :
      (net : D) (bs : List (AccountBalance D))
      → add (debits (lines_of net bs)) net ≡ add (credits (lines_of net bs)) (net_of net bs)
  unfolding closing_lines
  closing_lines-sum net [] = refl
  closing_lines-sum net (b ∷ bs) =
      closing_step b.code net b.balance bs (is_zero b.balance) b.is_revenue
        (λ m. closing_lines-sum m bs)

  closing_lines-nonneg :
      (net : D) (bs : List (AccountBalance D))
      → (nought ≼ debits (lines_of net bs)) × (nought ≼ credits (lines_of net bs))
  unfolding closing_lines
  closing_lines-nonneg net [] = (≼_refl laws nought, ≼_refl laws nought)
  closing_lines-nonneg net (b ∷ bs) =
      let next = next_net net b.balance (is_zero b.balance) b.is_revenue in
      add_line (is_zero b.balance) (zeroing_line b.code b.balance b.is_revenue) (lines_of next bs)
        (zeroing_line-nonneg b.code b.balance b.is_revenue) (closing_lines-nonneg next bs)

  -- A list with a side that is positive.
  abbrev Positive : List (LineInput D) → Type 0
  Positive ls =
      (less_than_or_equal (debits ls) nought ≡ false)
      ⊎ (less_than_or_equal (credits ls) nought ≡ false)

  Positive-with_line :
      (code : String) (b : D) (z side : Bool) (ls : List (LineInput D))
      → is_zero b ≡ z
      → (nought ≼ debits ls) × (nought ≼ credits ls)
      → (is_empty ls ≡ false → Positive ls)
      → is_empty (with_line z (zeroing_line code b side) ls) ≡ false
      → Positive (with_line z (zeroing_line code b side) ls)
  Positive-with_line code b true side ls zero nonneg ih more = ih more
  Positive-with_line code b false side ls nonzero nonneg ih more =
      let l = zeroing_line code b side in
      elim (zeroing_line-positive code b side nonzero) [
        | inl d ↦ inl (still_positive laws l.debit (debits ls) d nonneg.0)
        | inr c ↦ inr (still_positive laws l.credit (credits ls) c nonneg.1)
      ]

  closing_lines-Positive :
      (net : D) (bs : List (AccountBalance D))
      → is_empty (lines_of net bs) ≡ false
      → Positive (lines_of net bs)
  unfolding closing_lines
  closing_lines-Positive net [] h = ground (arith, h)
  closing_lines-Positive net (b ∷ bs) h =
      let next = next_net net b.balance (is_zero b.balance) b.is_revenue in
      Positive-with_line b.code b.balance (is_zero b.balance) b.is_revenue (lines_of next bs) refl
        (closing_lines-nonneg next bs) (closing_lines-Positive next bs) h

  -- The line of retained earnings makes up for the net income.
  earnings_lines-balance :
      (d c net : D)
      → d ≡ add c net
      → add d (debits (earnings_lines net)) ≡ add c (credits (earnings_lines net))
  unfolding earnings_lines
  earnings_lines-balance d c net h = ground (
    arith,
    h,
    laws.add_assoc c net (neg net),
    laws.add_neg net,
    laws.add_nought c,
    laws.add_nought d,
    laws.add_nought net,
    laws.add_nought (neg net),
    laws.add_nought nought,
    nought_add laws net,
    nought_add laws (neg net),
    laws.eq_of_cmp net nought,
  )

  earnings_lines-nonneg :
      (net : D) → (nought ≼ debits (earnings_lines net)) × (nought ≼ credits (earnings_lines net))
  unfolding earnings_lines
  earnings_lines-nonneg net = ground (
    arith,
    laws.cmp_refl nought,
    laws.cmp_add net nought (neg net),
    laws.add_neg net,
    nought_add laws (neg net),
    laws.add_nought nought,
    laws.add_nought net,
    laws.add_nought (neg net),
    laws.cmp_flip net nought,
    laws.cmp_flip nought (neg net),
  )

  all_sum :
      (side : LineInput D → D) (xs ys : List (LineInput D))
      → sum (map side (xs ++ ys)) ≡ add (sum (map side xs)) (sum (map side ys))
  all_sum side [] ys = sym (nought_add laws (sum (map side ys)))
  all_sum side (x ∷ xs) ys =
      rw (all_sum side xs ys)
        (sym (laws.add_assoc (side x) (sum (map side xs)) (sum (map side ys))))

  -- The closing entry of any balances, of which one is not nought, is accepted: the lines that
  -- zero the accounts, contra balances included, and the line of retained earnings have the same
  -- positive total on both sides.
  pub closing_lines-Accepted :
      (bs : List (AccountBalance D))
      → let (lines, net) = closing_lines nought bs in
        is_empty lines ≡ false → validate_balance (lines ++ earnings_lines net) ≡ ok tt
  closing_lines-Accepted bs more =
      let lines = lines_of nought bs in
      let net = net_of nought bs in
      let last = earnings_lines net in
      let (ed, ec) = earnings_lines-nonneg net in
      let d = all_sum (λ (l : LineInput D). l.debit) lines last in
      let c = all_sum (λ (l : LineInput D). l.credit) lines last in
      let whole =
        earnings_lines-balance (debits lines) (credits lines) net
          (sym (laws.add_nought (debits lines)) ∙ closing_lines-sum nought bs) in
      sums_accepted laws (lines ++ last) (add (debits lines) (debits last))
        (elim (closing_lines-Positive nought bs more) [
          | inl p ↦ still_positive laws (debits lines) (debits last) p ed
          | inr p ↦
              subst (λ t. less_than_or_equal t nought ≡ false) (sym whole)
                (still_positive laws (credits lines) (credits last) p ec)
        ])
        d (c ∙ sym whole)
