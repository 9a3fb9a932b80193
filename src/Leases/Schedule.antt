-- ===== src/Leases/Schedule.antt =====
-- The amortization schedule of a lease: buildLeaseSchedule of internal/repository/leases.go.
pub mod Amortisation
use iag_finance.Base.{ℕ, zero, suc, Bool, List, [], ◌∷◌, if◌then◌else◌, ◌==◌}
use iag_finance.Calendar.{Period, add_months}
use iag_finance.Decimal.{Decimal, nought, from_int, add, sub, mul, div, div_round, round, is_zero}

-- scheduleRow
pub record ScheduleRow (D : Type 0) : Type 0 where
  pub period : Period
  pub opening : D
  pub interest : D
  pub payment : D
  pub principal : D
  pub closing : D
  pub depreciation : D

module _ {D : Type 0} ⦃dec : Decimal D⦄ where
  -- One round of the first loop: the discount factor and the present value so far.
  abbrev pub discounted : D → D → D × D → D × D
  discounted payment monthly (df, pv) =
      if is_zero monthly
      then (df, add pv payment)
      else let df' = div_round df (add (from_int 1) monthly) 12 in (df', add pv (mul payment df'))

  unfoldable pub discounted_payments : D → D → ℕ → D × D → D × D
  discounted_payments payment monthly zero acc = acc
  discounted_payments payment monthly (suc n) acc =
      discounted_payments payment monthly n (discounted payment monthly acc)

  unfoldable pub present_value : D → D → ℕ → D
  unfolding discounted_payments
  present_value payment monthly term =
      round 2 (discounted_payments payment monthly term (from_int 1, nought)).1

  -- One round of the second loop. In the last period the principal clears the liability, and the
  -- depreciation is what is left.
  unfoldable pub amortization_row : D → D → D → D → Bool → Period → D → D → ScheduleRow D
  amortization_row payment monthly rou depr_per last period opening accum_depr =
      let interest = round 2 (mul opening monthly) in
      let principal = if last then opening else sub payment interest in
      record {
        period = period;
        opening = opening;
        interest = interest;
        payment = add interest principal;
        principal = principal;
        closing = sub opening principal;
        depreciation = if last then sub rou accum_depr else depr_per;
      }

  unfoldable pub schedule_rows : D → D → D → D → ℕ → Period → D → D → List (ScheduleRow D)
  unfolding amortization_row
  schedule_rows payment monthly rou depr_per zero period opening accum_depr = []
  schedule_rows payment monthly rou depr_per (suc n) period opening accum_depr =
      let row = amortization_row payment monthly rou depr_per (n == 0) period opening accum_depr in
      row
      ∷ schedule_rows payment monthly rou depr_per n (add_months period 1) row.closing
          (add accum_depr row.depreciation)

  unfoldable pub build_lease_schedule : D → D → ℕ → Period → D × List (ScheduleRow D)
  unfolding present_value schedule_rows
  build_lease_schedule payment annual_rate term start =
      let monthly = div annual_rate (from_int 12) in
      let pv = present_value payment monthly term in
      (pv, schedule_rows payment monthly pv (div_round pv (from_int term) 2) term start pv nought)
