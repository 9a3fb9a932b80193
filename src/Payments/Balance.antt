-- ===== src/Payments/Balance.antt =====
-- The entry of a settlement balances.
use iag_finance.Base.{ℕ, String, ◌≡◌, refl, ◌∙◌, ◌++◌, List, [], ◌∷◌, map, arith}
use iag_finance.Decimal.{
  Decimal, Laws, nought, sub, mul, round, nought_add, add-sub_cancel, abs-sub_neg, cmp-sub,
}
use iag_finance.Store.{Account, JournalLine, ResolvedLine, Direction, ar, ap, Result, ok, err}
use iag_finance.Ledger.Lines.{line_row, insert_line, insert_lines, cons_result, totals, base_amount}
use iag_finance.Ledger.Booking.{base_totals}
use iag_finance.Payments.Settlement.{
  ar_legs, ap_legs, append_result, with_residual, settlement_legs, residual_lines, settlement_lines,
  debit_line, credit_line,
}

module _ {D : Type 0} ⦃dec : Decimal D⦄ where
  -- Lines that are stored are stored as their rows.
  pub insert_lines-rows :
      (fx : D) (currency : String) (ls : List (ResolvedLine D)) (rows : List (JournalLine D))
      → insert_lines fx currency ls ≡ ok rows
      → rows ≡ map (line_row fx currency) ls
  unfolding insert_lines insert_line cons_result
  insert_lines-rows fx currency [] rows h = ground arith
  insert_lines-rows fx currency (l ∷ ls) [] h = ground arith
  insert_lines-rows fx currency (l ∷ ls) (r ∷ rows) h =
      ground (arith, insert_lines-rows fx currency ls rows)

module _ {D : Type 0} ⦃dec : Decimal D⦄ (laws : Laws D) where
  -- No base amount at all is stored as zero.
  stored_nought : (fx : D) → round 4 (round 2 (mul nought fx)) ≡ nought
  stored_nought fx = rw (laws.nought_mul fx) (rw (laws.round_nought 2) (laws.round_nought 4))

  stored_base : (a : D) → round 4 (round 2 (round 2 a)) ≡ round 2 a
  stored_base a = rw (laws.round_2_2 a) (laws.round_4_2 a)

  stored_sub :
      (a b : D) → round 4 (round 2 (sub (round 2 a) (round 2 b))) ≡ sub (round 2 a) (round 2 b)
  stored_sub a b = laws.round_4_2 (sub (round 2 a) (round 2 b)) ∙ laws.round_sub a b

  abbrev pub Even : D × D → Type 0
  Even t = t.0 ≡ t.1

  abbrev rows : D → String → List (ResolvedLine D) → List (JournalLine D)
  rows fx currency = map (line_row fx currency)

  -- Without a residual, both legs have one base amount.
  same_legs :
      (fx : D) (currency : String) (a b : ℕ) (amount p q : D) (cur m n : String)
      → round 2 p ≡ round 2 q
      → Even (
          base_totals (
            rows fx currency (
              debit_line a amount cur (round 2 p) m 0
              ∷ credit_line b amount cur (round 2 q) n 1
              ∷ [])))
  unfolding totals line_row base_amount
  same_legs fx currency a b amount p q cur m n h =
      simp (stored_nought fx, stored_base q, laws.add_nought, nought_add laws, h)

  gain_legs :
      (fx : D) (currency : String) (a b g : ℕ) (amount p q : D) (cur base m n k : String)
      → let r : D = sub (round 2 p) (round 2 q) in
        Even (
          base_totals (
            rows fx currency (
              debit_line a amount cur (round 2 p) m 0
              ∷ credit_line b amount cur (round 2 q) n 1
              ∷ credit_line g r base r k 2
              ∷ [])))
  unfolding totals line_row base_amount
  gain_legs fx currency a b g amount p q cur base m n k = simp (
    stored_nought fx,
    stored_base p,
    stored_base q,
    stored_sub p q,
    laws.add_nought,
    nought_add laws,
    add-sub_cancel laws (round 2 p) (round 2 q),
  )

  loss_legs :
      (fx : D) (currency : String) (a b g : ℕ) (amount p q r : D) (cur base m n k : String)
      → r ≡ sub (round 2 q) (round 2 p)
      → Even (
          base_totals (
            rows fx currency (
              debit_line a amount cur (round 2 p) m 0
              ∷ credit_line b amount cur (round 2 q) n 1
              ∷ debit_line g r base r k 2
              ∷ [])))
  unfolding totals line_row base_amount
  loss_legs fx currency a b g amount p q r cur base m n k h = rw h (
      simp (
        stored_nought fx,
        stored_base p,
        stored_base q,
        stored_sub q p,
        laws.add_nought,
        nought_add laws,
        add-sub_cancel laws (round 2 q) (round 2 p),
      ))

  residual_legs :
      (accounts : List Account) (base : String) (fx : D) (currency : String) (a b : ℕ)
      (amount p q : D) (cur m n : String) (more : List (ResolvedLine D))
      → residual_lines accounts base (sub (round 2 p) (round 2 q)) ≡ ok more
      → Even (
          base_totals (
            rows fx currency (
              debit_line a amount cur (round 2 p) m 0
              ∷ credit_line b amount cur (round 2 q) n 1
              ∷ more)))
  unfolding residual_lines
  residual_legs accounts base fx currency a b amount p q cur m n more h = grind (
    arith,
    same_legs,
    gain_legs,
    loss_legs,
    abs-sub_neg laws (round 2 p) (round 2 q),
    cmp-sub laws (round 2 p) (round 2 q),
    laws.eq_of_cmp (round 2 p) (round 2 q),
  )

  append_result-ok :
      (legs lines : List (ResolvedLine D)) (r : Result (List (ResolvedLine D)))
      → append_result legs r ≡ ok lines
      → (more : List (ResolvedLine D)) × (r ≡ ok more) × (legs ++ more ≡ lines)
  append_result-ok legs lines (ok more) h = (more, refl, ground arith)
  append_result-ok legs lines (err e) h = ground arith

  with_residual-Even :
      (accounts : List Account) (base : String) (fx : D) (currency : String) (a b : ℕ)
      (amount p q : D) (cur m n : String) (lines : List (ResolvedLine D))
      → with_residual accounts base (
          ok (
            debit_line a amount cur (round 2 p) m 0 ∷ credit_line b amount cur (round 2 q) n 1 ∷ [],
            sub (round 2 p) (round 2 q),
          ))
        ≡ ok lines
      → Even (base_totals (rows fx currency lines))
  unfolding with_residual
  with_residual-Even accounts base fx currency a b amount p q cur m n lines h =
      let (more, found, is) =
        append_result-ok
          (debit_line a amount cur (round 2 p) m 0 ∷ credit_line b amount cur (round 2 q) n 1 ∷ [])
          lines (residual_lines accounts base (sub (round 2 p) (round 2 q))) h in
      rw (← is) (residual_legs accounts base fx currency a b amount p q cur m n more found)

  ar_legs-Even :
      (accounts : List Account) (base : String) (fx : D) (entry_currency : String) (amount p q : D)
      (currency : String) (cash receivable : Result Account) (lines : List (ResolvedLine D))
      → with_residual accounts base
          (ar_legs amount currency (round 2 p) (round 2 q) cash receivable)
        ≡ ok lines
      → Even (base_totals (rows fx entry_currency lines))
  unfolding ar_legs with_residual
  ar_legs-Even accounts base fx entry_currency amount p q currency (ok cash) (ok receivable) lines
        h =
      with_residual-Even accounts base fx entry_currency cash.id receivable.id amount p q currency _
        _ lines h
  ar_legs-Even accounts base fx entry_currency amount p q currency (ok cash) (err e) lines h =
      ground arith
  ar_legs-Even accounts base fx entry_currency amount p q currency (err e) _ lines h = ground arith

  ap_legs-Even :
      (accounts : List Account) (base : String) (fx : D) (entry_currency : String) (amount p q : D)
      (currency : String) (cash payable : Result Account) (lines : List (ResolvedLine D))
      → with_residual accounts base (ap_legs amount currency (round 2 p) (round 2 q) cash payable)
        ≡ ok lines
      → Even (base_totals (rows fx entry_currency lines))
  unfolding ap_legs with_residual
  ap_legs-Even accounts base fx entry_currency amount p q currency (ok cash) (ok payable) lines h =
      with_residual-Even accounts base fx entry_currency payable.id cash.id amount q p currency _ _
        lines h
  ap_legs-Even accounts base fx entry_currency amount p q currency (ok cash) (err e) lines h =
      ground arith
  ap_legs-Even accounts base fx entry_currency amount p q currency (err e) _ lines h = ground arith

  -- The lines of a settlement, as they are stored, have the same total of base debits and base
  -- credits, for both directions, whatever the document's rate, the day's rate and the rounding:
  -- the line of the realized gain or loss makes up for the difference.
  pub settlement_lines-Even :
      (accounts : List Account) (base : String) (direction : Direction) (amount : D)
      (currency : String) (doc_rate pay_rate fx : D) (entry_currency : String)
      (lines : List (ResolvedLine D))
      → settlement_lines accounts base direction amount currency doc_rate pay_rate ≡ ok lines
      → Even (base_totals (map (line_row fx entry_currency) lines))
  unfolding settlement_lines settlement_legs
  settlement_lines-Even accounts base ar amount currency doc_rate pay_rate fx entry_currency lines
        h =
      ar_legs-Even accounts base fx entry_currency amount (mul amount pay_rate)
        (mul amount doc_rate) currency _ _ lines h
  settlement_lines-Even accounts base ap amount currency doc_rate pay_rate fx entry_currency lines
        h =
      ap_legs-Even accounts base fx entry_currency amount (mul amount pay_rate)
        (mul amount doc_rate) currency _ _ lines h
