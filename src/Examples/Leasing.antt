-- ===== src/Examples/Leasing.antt =====
-- A lease, its schedule and its runs.
use iag_finance.Base.{
  ℕ, suc, ◌<◌, ◌≤◌, String, ◌≡◌, refl, Option, none, some, List, [], ◌∷◌, map, All, length, arith,
}
use iag_finance.Base.Int.{ℤ, pos}
use iag_finance.Calendar.{period_of, period_end}
use iag_finance.Calendar.Civil.{period_end-period_of}
use iag_finance.Decimal.{add, sum, round, from_int}
use iag_finance.Decimal.Fixed.{fixed, fixed-Laws}
use iag_finance.Store.{Store, LeaseLine}
use iag_finance.Ledger.Lines.{line_row}
use iag_finance.Ledger.Booking.{base_totals}
use iag_finance.Leases.Schedule.{build_lease_schedule}
use iag_finance.Leases.Schedule.Amortisation.{
  RunsDown, principals, depreciations, build_lease_schedule-Amortised,
}
use iag_finance.Leases.Recognition.{CreateLeaseInput, create_lease}
use iag_finance.Leases.Runs.{
  RunAccounts, run_lines, run_sums, no_sums, due_lease_lines, run_lease_period,
}
use iag_finance.Leases.Runs.Balance.{TwoPlaces}
use iag_finance.Leases.Runs.Whole.{LinesWhole, leases-LinesWhole, run_lines-Even}
use iag_finance.Examples.Data.{units, ctx, empty_store, audit_info}

period_end-period_of_example : period_of (period_end 24_240) ≡ 24_240
period_end-period_of_example = period_end-period_of 24_240 (omega arith)

build_lease_schedule-Amortised_example :
    let b = build_lease_schedule (units 100) (pos 120_000) 3 24_240 in
    RunsDown b.0 b.1 × (principals b.1 ≡ b.0) × (depreciations b.1 ≡ b.0) × (length b.1 ≡ 3)
build_lease_schedule-Amortised_example =
    build_lease_schedule-Amortised fixed-Laws (units 100) (pos 120_000) 3 24_240 (omega arith)

abbrev one_lease_line : LeaseLine ℤ
one_lease_line = record {
  id = 1;
  lease_id = 1;
  period = 24_240;
  opening_liability = units 100;
  interest = units 2;
  payment = units 52;
  principal = units 50;
  closing_liability = units 50;
  depreciation = units 33;
  journal_entry_id = none;
}

abbrev with_lease : Store ℤ
with_lease = record empty_store { lease_lines = one_lease_line ∷ [] }

abbrev lease_input : CreateLeaseInput ℤ
lease_input = record {
  lease_ref = "L1";
  description = "office";
  currency = "";
  monthly_payment = units 100;
  annual_rate = pos 120_000;
  term_months = 3;
  start_period = 24_240;
}

hundred_places : TwoPlaces (units 100)
unfolding iag_finance.Decimal.Fixed.on_magnitude iag_finance.Decimal.Fixed.round_to
hundred_places = refl

lines_whole : LinesWhole with_lease
unfolding iag_finance.Decimal.Fixed.on_magnitude iag_finance.Decimal.Fixed.round_to
    iag_finance.Base.Int.◌+ℤ◌
lines_whole = ((refl, refl, refl, refl, refl), tt)

leases-LinesWhole_example :
    LinesWhole (create_lease ctx lease_input 7 audit_info with_lease).1
    × LinesWhole (run_lease_period ctx 24_240 "2020-01" 7 audit_info with_lease).1
leases-LinesWhole_example =
    leases-LinesWhole fixed-Laws ctx lease_input 7 audit_info with_lease 24_240 "2020-01"
      hundred_places lines_whole

abbrev run_ids : RunAccounts
run_ids = record { interest = 1; depreciation = 2; liability = 3; funding = 4; accumulated = 5 }

run_lines-Even_example :
    let u = base_totals (
      map (line_row (from_int 1) "UGX") (
        run_lines run_ids
          (run_sums no_sums (due_lease_lines 24_240 with_lease.lease_lines))
          "2020-01")) in
    u.0 ≡ u.1
run_lines-Even_example =
    run_lines-Even fixed-Laws run_ids 24_240 with_lease "UGX" "2020-01" lines_whole
