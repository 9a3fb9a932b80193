-- ===== src/Leases/Runs/Balance.antt =====
-- The entry of a lease run balances in base currency.
use iag_finance.Base.{
  ℕ, ◌+◌, String, ◌≡◌, refl, ◌∙◌, sym, ap, Bool-cases, inl, inr, List, [], ◌∷◌, All, map, arith,
  ◌&&◌, concat,
}
use iag_finance.Decimal.{
  Decimal, Laws, nought, from_int, add, mul, round, sum, nought_add, eq_of_is_zero, is_zero,
  add_left_comm,
}
use iag_finance.Store.{LeaseLine}
use iag_finance.Ledger.Lines.{line_row, base_amount, totals}
use iag_finance.Ledger.Booking.{base_totals}
use iag_finance.Leases.Runs.{RunAccounts, RunSums, run_sums, no_sums, number_lines, run_lines}

module _ {D : Type 0} ⦃dec : Decimal D⦄ where
  abbrev pub TwoPlaces : D → Type 0
  TwoPlaces a = round 2 a ≡ a

  -- A line pays its interest and its principal.
  abbrev pub PaysWhole : LeaseLine D → Type 0
  PaysWhole l =
      (l.payment ≡ add l.interest l.principal)
      × TwoPlaces l.interest
      × TwoPlaces l.principal
      × TwoPlaces l.payment
      × TwoPlaces l.depreciation

  abbrev pub SumsWhole : RunSums D → Type 0
  SumsWhole t =
      (t.payment ≡ add t.interest t.principal)
      × TwoPlaces t.interest
      × TwoPlaces t.principal
      × TwoPlaces t.payment
      × TwoPlaces t.depreciation

  abbrev base_of : D → D → D
  base_of fx a = round 4 (round 2 (mul a fx))

  abbrev debits : D → List (ℕ × D × D × String) → D
  debits fx ls = sum (map (λ (l : ℕ × D × D × String). base_of fx l.1) ls)

  abbrev credits : D → List (ℕ × D × D × String) → D
  credits fx ls = sum (map (λ (l : ℕ × D × D × String). base_of fx l.2) ls)

module _ {D : Type 0} ⦃dec : Decimal D⦄ (laws : Laws D) where
  pub add_places : (a b : D) → TwoPlaces a → TwoPlaces b → TwoPlaces (add a b)
  add_places a b h k = ground (arith, laws.round_add a b)

  regroup :
      (t : RunSums D) (l : LeaseLine D)
      → t.payment ≡ add t.interest t.principal
      → l.payment ≡ add l.interest l.principal
      → add t.payment l.payment ≡ add (add t.interest l.interest) (add t.principal l.principal)
  regroup t l h k = rw h (
      rw k (
        laws.add_assoc t.interest t.principal (add l.interest l.principal)
        ∙ ap (add t.interest) (add_left_comm laws t.principal l.interest l.principal)
        ∙ sym (laws.add_assoc t.interest l.interest (add t.principal l.principal))))

  run_sums-SumsWhole :
      (t : RunSums D) (ls : List (LeaseLine D))
      → SumsWhole t
      → All PaysWhole ls
      → SumsWhole (run_sums t ls)
  unfolding run_sums
  run_sums-SumsWhole t [] h all = h
  run_sums-SumsWhole t (l ∷ ls) (pays, i, p, m, d) ((pays', i', p', m', d'), all) =
      run_sums-SumsWhole
        (record {
          interest = add t.interest l.interest;
          principal = add t.principal l.principal;
          payment = add t.payment l.payment;
          depreciation = add t.depreciation l.depreciation;
        })
        ls
        (
          regroup t l pays pays',
          add_places t.interest l.interest i i',
          add_places t.principal l.principal p p',
          add_places t.payment l.payment m m',
          add_places t.depreciation l.depreciation d d',
        )
        all

  number_lines-totals :
      (fx : D) (currency : String) (ls : List (ℕ × D × D × String)) (order : ℕ) (d c : D)
      → totals
          (λ l. l.debit_base)
          (λ l. l.credit_base)
          d
          c
          (map (line_row fx currency) (number_lines order ls))
        ≡ (add d (debits fx ls), add c (credits fx ls))
  unfolding totals number_lines line_row base_amount
  number_lines-totals fx currency [] order d c =
      ground (arith, laws.add_nought d, laws.add_nought c)
  number_lines-totals fx currency ((account, debit, credit, memo) ∷ ls) order d c =
      elim (Bool-cases (is_zero debit && is_zero credit)) [
        | inl skipped ↦ ground (
          arith,
          number_lines-totals fx currency ls order d c,
          eq_of_is_zero laws debit,
          eq_of_is_zero laws credit,
          laws.nought_mul fx,
          laws.round_nought 2,
          laws.round_nought 4,
          nought_add laws (debits fx ls),
          nought_add laws (credits fx ls),
        )
        | inr kept ↦ rw kept (
            number_lines-totals fx currency ls (order + 1) (add d (base_of fx debit))
              (add c (base_of fx credit))
            ∙ rw (laws.add_assoc d (base_of fx debit) (debits fx ls))
                (rw (laws.add_assoc c (base_of fx credit) (credits fx ls)) refl))
      ]

  base_of-whole : (a : D) → TwoPlaces a → base_of (from_int 1) a ≡ a
  base_of-whole a h = ground (arith, laws.mul_one a, laws.round_4_2 a)

  nought_places : TwoPlaces {D = D} nought
  nought_places = laws.round_nought 2

  pub run_sums-whole :
      (ls : List (LeaseLine D)) → All PaysWhole ls → SumsWhole (run_sums no_sums ls)
  run_sums-whole ls all =
      run_sums-SumsWhole no_sums ls
        (sym (laws.add_nought nought), nought_places, nought_places, nought_places, nought_places)
        all

  pub whole_lines :
      (ids : RunAccounts) (t : RunSums D) (currency text : String)
      → SumsWhole t
      → let u = base_totals (map (line_row (from_int 1) currency) (run_lines ids t text)) in
        u.0 ≡ u.1
  unfolding run_lines
  whole_lines ids t currency text (pays, i, p, m, d) =
      rw
        (number_lines-totals (from_int 1) currency
          ((ids.interest, t.interest, nought, concat "Lease interest " text)
            ∷ (ids.depreciation, t.depreciation, nought, concat "ROU depreciation " text)
            ∷ (ids.liability, t.principal, nought, concat "Lease principal " text)
            ∷ (ids.funding, nought, t.payment, concat "Lease payment " text)
            ∷ (ids.accumulated, nought, t.depreciation, concat "Accum ROU depreciation " text)
            ∷ [])
          0 nought nought)
        (simp
          (
            base_of-whole t.interest i,
            base_of-whole t.depreciation d,
            base_of-whole t.principal p,
            base_of-whole t.payment m,
            base_of-whole nought nought_places,
            laws.add_nought,
            nought_add laws,
          )
          (rw pays (
            ap (add t.interest) (laws.add_comm t.depreciation t.principal)
            ∙ sym (laws.add_assoc t.interest t.principal t.depreciation))))
