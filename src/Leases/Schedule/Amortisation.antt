-- ===== src/Leases/Schedule/Amortisation.antt =====
-- What the schedule of a lease adds up to.
use iag_finance.Base.{
  ℕ, zero, suc, ◌<◌, ◌≡◌, refl, ◌∙◌, sym, ap, ◌==◌, List, [], ◌∷◌, map, length, arith,
}
use iag_finance.Calendar.{Period, add_months}
use iag_finance.Decimal.{
  Decimal, Laws, nought, from_int, add, sub, div, div_round, sum, add-sub_cancel, sub_self,
  nought_add,
}
use iag_finance.Leases.Schedule.{
  ScheduleRow, amortization_row, schedule_rows, present_value, build_lease_schedule,
}

module _ {D : Type 0} ⦃dec : Decimal D⦄ where
  -- Every row opens with what the one before has left, pays its interest and its principal, and
  -- the last one leaves nothing.
  abbrev pub RunsDown : D → List (ScheduleRow D) → Type 0
  RunsDown liability [] = liability ≡ nought
  RunsDown liability (r ∷ rs) =
      (r.opening ≡ liability)
      × (r.payment ≡ add r.interest r.principal)
      × (r.closing ≡ sub r.opening r.principal)
      × RunsDown r.closing rs

  abbrev pub principals : List (ScheduleRow D) → D
  principals rows = sum (map (λ (r : ScheduleRow D). r.principal) rows)

  abbrev pub depreciations : List (ScheduleRow D) → D
  depreciations rows = sum (map (λ (r : ScheduleRow D). r.depreciation) rows)

  RunsDown-principals :
      (laws : Laws D) (liability : D) (rows : List (ScheduleRow D))
      → RunsDown liability rows
      → principals rows ≡ liability
  RunsDown-principals laws liability [] h = sym h
  RunsDown-principals laws liability (r ∷ rs) (opens, pays, closes, rest) =
      ap (add r.principal) (RunsDown-principals laws r.closing rs rest)
      ∙ ap (add r.principal) closes
      ∙ add-sub_cancel laws r.opening r.principal
      ∙ opens

module _ {D : Type 0} ⦃dec : Decimal D⦄ (laws : Laws D) where
  schedule_rows-RunsDown :
      (payment monthly rou depr_per : D) (n : ℕ) (period : Period) (opening accum : D)
      → RunsDown opening (schedule_rows payment monthly rou depr_per (suc n) period opening accum)
  unfolding schedule_rows amortization_row
  schedule_rows-RunsDown payment monthly rou depr_per zero period opening accum =
      (refl, refl, refl, sub_self laws opening)
  schedule_rows-RunsDown payment monthly rou depr_per (suc n) period opening accum =
      let row = amortization_row payment monthly rou depr_per (suc n == 0) period opening accum in
      (
        refl,
        refl,
        refl,
        schedule_rows-RunsDown payment monthly rou depr_per n (add_months period 1) row.closing
            (add accum row.depreciation),
      )

  schedule_rows-depreciation :
      (payment monthly rou depr_per : D) (n : ℕ) (period : Period) (opening accum : D)
      → add accum
          (depreciations (schedule_rows payment monthly rou depr_per (suc n) period opening accum))
        ≡ rou
  unfolding schedule_rows amortization_row
  schedule_rows-depreciation payment monthly rou depr_per zero period opening accum =
      ap (add accum) (laws.add_nought (sub rou accum)) ∙ add-sub_cancel laws rou accum
  schedule_rows-depreciation payment monthly rou depr_per (suc n) period opening accum =
      let row = amortization_row payment monthly rou depr_per (suc n == 0) period opening accum in
      sym (
        laws.add_assoc accum row.depreciation (
          depreciations (
            schedule_rows payment monthly rou depr_per (suc n) (add_months period 1) row.closing
              (add accum row.depreciation))))
      ∙ schedule_rows-depreciation payment monthly rou depr_per n (add_months period 1) row.closing
          (add accum row.depreciation)

  schedule_rows-length :
      (payment monthly rou depr_per : D) (n : ℕ) (period : Period) (opening accum : D)
      → length (schedule_rows payment monthly rou depr_per n period opening accum) ≡ n
  unfolding schedule_rows
  schedule_rows-length payment monthly rou depr_per zero period opening accum = ground arith
  schedule_rows-length payment monthly rou depr_per (suc n) period opening accum =
      let row = amortization_row payment monthly rou depr_per (n == 0) period opening accum in
      ground (
        arith,
        schedule_rows-length payment monthly rou depr_per n (add_months period 1) row.closing
            (add accum row.depreciation),
      )

  -- A lease of `term` months, for any positive term, has a schedule of as many rows: they run the
  -- liability down from the present value to exactly nought, and what is paid off and what is
  -- depreciated both add up to the present value, whatever the rate and the rounding.
  pub build_lease_schedule-Amortised :
      (payment annual_rate : D) (term : ℕ) (start : Period)
      → 0 < term
      → let (pv, rows) = build_lease_schedule payment annual_rate term start in
        RunsDown pv rows × (principals rows ≡ pv) × (depreciations rows ≡ pv) × (length rows ≡ term)
  unfolding build_lease_schedule
  build_lease_schedule-Amortised payment annual_rate zero start h = ground (arith, h)
  build_lease_schedule-Amortised payment annual_rate (suc n) start h =
      let monthly = div annual_rate (from_int 12) in
      let pv = present_value payment monthly (suc n) in
      let depr_per = div_round pv (from_int (suc n)) 2 in
      let rows = schedule_rows payment monthly pv depr_per (suc n) start pv nought in
      let down = schedule_rows-RunsDown payment monthly pv depr_per n start pv nought in
      (
        down,
        RunsDown-principals laws pv rows down,
        sym (nought_add laws (depreciations rows))
            ∙ schedule_rows-depreciation payment monthly pv depr_per n start pv nought,
        schedule_rows-length payment monthly pv depr_per (suc n) start pv nought,
      )
