-- ===== src/Examples/Depreciating.antt =====
-- An asset, its depreciation and its disposal.
use iag_finance.Base.{ℕ, String, ◌≡◌, refl, arith, true, Option, none, some, List, [], ◌∷◌, All}
use iag_finance.Base.Int.{ℤ, pos}
use iag_finance.Decimal.{◌≼◌, nought}
use iag_finance.Decimal.Fixed.{fixed, fixed-Laws}
use iag_finance.Store.{Store, FixedAsset, straight_line, ok, Result}
use iag_finance.Assets.Depreciation.{DepreciationRun, run_depreciation}
use iag_finance.Assets.Depreciation.Bounds.{WithinCost, run_depreciation-WithinCost}
use iag_finance.Assets.Depreciation.Again.{run_depreciation-again, nothing_run}
use iag_finance.Assets.Lines.{disposal_lines, fallback_lines}
use iag_finance.Assets.Lines.Balance.{debits, credits, disposal_lines-Even}
use iag_finance.Examples.Data.{units, ctx, account, empty_store}

abbrev van : FixedAsset ℤ
van = record {
  id = 1;
  asset_ref = "VAN";
  description = "";
  category = "";
  cost = units 1300;
  salvage_value = units 100;
  in_service_date = 18_000;
  useful_life_months = 12;
  method = straight_line;
  declining_rate = none;
  accumulated_depreciation = units 50;
  currency = "UGX";
  active = true;
}

abbrev with_van : Store ℤ
with_van = record empty_store {
  assets = van ∷ [];
  accounts = account 8 "5300" ∷ account 9 "1510" ∷ [];
}

van_within : All WithinCost with_van.assets
unfolding iag_finance.Decimal.Fixed.on_magnitude iag_finance.Decimal.Fixed.round_to
    iag_finance.Decimal.Fixed.compare_ℤ iag_finance.Base.Int.◌+ℤ◌ iag_finance.Base.Int.neg
van_within = ((refl, refl, refl, refl, refl), tt)

run_depreciation-WithinCost_example :
    All WithinCost (run_depreciation ctx 24_240 "2020-01" 7 with_van).1.assets
run_depreciation-WithinCost_example =
    run_depreciation-WithinCost ctx fixed-Laws 24_240 "2020-01" 7 with_van van_within

abbrev first_run : Result (DepreciationRun ℤ) × Store ℤ
first_run = run_depreciation ctx 24_240 "2020-01" 7 with_van

abbrev run_of : Result (DepreciationRun ℤ) → DepreciationRun ℤ
run_of (ok r) = r
run_of _ = nothing_run 24_240

first_run-ok : first_run ≡ (ok (run_of first_run.0), first_run.1)
unfolding run_depreciation iag_finance.Assets.Depreciation.depreciation_tx
    iag_finance.Decimal.Fixed.compare_ℤ iag_finance.Assets.Depreciation.depreciate
    iag_finance.Assets.Depreciation.is_depreciable iag_finance.Calendar.date_of
    iag_finance.Calendar.period_end iag_finance.Assets.Depreciation.is_charged
    iag_finance.Assets.Depreciation.charge iag_finance.Base.Int.◌+ℤ◌ iag_finance.Base.Int.neg
    iag_finance.Assets.Depreciation.monthly_charge iag_finance.Decimal.Fixed.on_magnitude
    iag_finance.Decimal.Fixed.round_to iag_finance.Decimal.Fixed.quotient_round
    iag_finance.Assets.Depreciation.book_depreciation
    iag_finance.Revenue.Schedules.account_id_by_code iag_finance.Ledger.Lines.get_account_by_code
    iag_finance.Base.str_eq iag_finance.Calendar.first_day iag_finance.Decimal.Fixed.ratio
    iag_finance.Ledger.Booking.assert_balanced iag_finance.Ledger.Booking.entry_by_id
    iag_finance.Ledger.Booking.entry_by_source_event iag_finance.Ledger.Booking.insert_posted_entry
    iag_finance.Ledger.Booking.is_balanced iag_finance.Ledger.Booking.next_entry_number
    iag_finance.Ledger.Lines.base_amount iag_finance.Ledger.Lines.cons_result
    iag_finance.Ledger.Lines.currency_or iag_finance.Ledger.Lines.insert_line
    iag_finance.Ledger.Lines.has_own_dimensions iag_finance.Ledger.Lines.insert_lines
    iag_finance.Ledger.Lines.line_currency iag_finance.Ledger.Lines.line_row
    iag_finance.Ledger.Lines.one_side iag_finance.Ledger.Lines.rate iag_finance.Ledger.Lines.totals
    iag_finance.Revenue.Schedules.transfer_lines iag_finance.Decimal.Fixed.times
    iag_finance.Decimal.Fixed.product
first_run-ok = refl

run_depreciation-again_example :
    run_depreciation ctx 24_240 "again" 9 first_run.1 ≡ (ok (nothing_run 24_240), first_run.1)
run_depreciation-again_example =
    run_depreciation-again fixed-Laws ctx 24_240 "2020-01" "again" 7 9 with_van first_run.1
      (run_of first_run.0) first_run-ok

not_negative : (n : ℕ) → ◌≼◌ {D = ℤ} nought (pos n)
unfolding iag_finance.Decimal.Fixed.compare_ℤ
not_negative n = ground arith

disposal_lines-Even_example :
    (debits (disposal_lines "VAN" (units 900) (units 1300) (units 250))
      ≡ credits (disposal_lines "VAN" (units 900) (units 1300) (units 250)))
    × (debits (fallback_lines "VAN" (units 900) (units 1000))
        ≡ credits (fallback_lines "VAN" (units 900) (units 1000)))
disposal_lines-Even_example =
    disposal_lines-Even fixed-Laws "VAN" (units 900) (units 1300) (units 250) (units 1000)
      (not_negative 900_000_000) (not_negative 1_300_000_000) (not_negative 250_000_000)
      (not_negative 1_000_000_000)
