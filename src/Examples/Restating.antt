-- ===== src/Examples/Restating.antt =====
-- An asset that is impaired and revalued.
use iag_finance.Base.{◌≡◌, refl, arith, true, false, Option, none, some, List, [], ◌∷◌}
use iag_finance.Base.Int.{ℤ}
use iag_finance.Decimal.{round}
use iag_finance.Decimal.Fixed.{fixed, fixed-Laws}
use iag_finance.Store.{Store, FixedAsset, straight_line, ok}
use iag_finance.Assets.Restatement.{book_impairment, book_revaluation, event_of}
use iag_finance.Ledger.Booking.{is_event_processed}
use iag_finance.Assets.Register.{find_asset}
use iag_finance.Assets.Restatement.Carrying.{
  InPlaces, IsCarriedAt, book_impairment-IsCarriedAt, book_revaluation-IsCarriedAt,
}
use iag_finance.Examples.Data.{units, ctx, account, empty_store}

abbrev press : FixedAsset ℤ
press = record {
  id = 1;
  asset_ref = "PRESS";
  description = "";
  category = "";
  cost = units 1000;
  salvage_value = units 100;
  in_service_date = 18_000;
  useful_life_months = 12;
  method = straight_line;
  declining_rate = none;
  accumulated_depreciation = units 200;
  currency = "UGX";
  active = true;
}

abbrev with_press : Store ℤ
with_press = record empty_store {
  assets = press ∷ [];
  accounts = account 7 "5310" ∷ account 8 "1500" ∷ account 9 "1510" ∷ [];
}

abbrev impaired : FixedAsset ℤ
impaired = record press { accumulated_depreciation = units 400 }

abbrev revalued : FixedAsset ℤ
revalued = record press { cost = units 800 }

there : find_asset "PRESS" with_press.assets ≡ some press
unfolding find_asset iag_finance.Base.str_eq
there = refl

in_places : InPlaces press
unfolding iag_finance.Decimal.Fixed.on_magnitude iag_finance.Decimal.Fixed.round_to
in_places = (refl, refl)

target : round 2 (units 600) ≡ units 600
unfolding iag_finance.Decimal.Fixed.on_magnitude iag_finance.Decimal.Fixed.round_to
target = refl

first_impairment :
    (book_impairment ctx "PRESS" (units 600) 7 none with_press).0 ≡ ok (some impaired)
unfolding book_impairment iag_finance.Assets.Restatement.impairment_tx
    iag_finance.Assets.Rows.lock_asset iag_finance.Assets.Rows.update_asset
    iag_finance.Assets.Restatement.adjust_asset iag_finance.Assets.Restatement.post_asset_adjustment
    iag_finance.Assets.Register.find_asset iag_finance.Assets.Lines.add_lines
    iag_finance.Decimal.Fixed.compare_ℤ iag_finance.Calendar.date_of iag_finance.Base.Int.◌+ℤ◌
    iag_finance.Base.Int.neg iag_finance.Decimal.Fixed.on_magnitude
    iag_finance.Decimal.Fixed.round_to iag_finance.Decimal.Fixed.quotient_round
    iag_finance.Revenue.Schedules.account_id_by_code iag_finance.Ledger.Lines.get_account_by_code
    iag_finance.Base.str_eq iag_finance.Decimal.Fixed.ratio
    iag_finance.Ledger.Booking.assert_balanced iag_finance.Ledger.Booking.entry_by_id
    iag_finance.Ledger.Booking.entry_by_source_event iag_finance.Ledger.Booking.insert_posted_entry
    iag_finance.Ledger.Booking.is_balanced iag_finance.Ledger.Booking.next_entry_number
    iag_finance.Ledger.Booking.mark_processed iag_finance.Ledger.Booking.is_event_processed
    iag_finance.Ledger.Lines.base_amount iag_finance.Ledger.Lines.cons_result
    iag_finance.Ledger.Lines.currency_or iag_finance.Ledger.Lines.insert_line
    iag_finance.Ledger.Lines.has_own_dimensions iag_finance.Ledger.Lines.insert_lines
    iag_finance.Ledger.Lines.line_currency iag_finance.Ledger.Lines.line_row
    iag_finance.Ledger.Lines.one_side iag_finance.Ledger.Lines.rate iag_finance.Ledger.Lines.totals
    iag_finance.Decimal.Fixed.times iag_finance.Decimal.Fixed.product iag_finance.Audit.append_audit
first_impairment = refl

first_revaluation :
    (book_revaluation ctx "PRESS" (units 600) 7 none with_press).0 ≡ ok (some revalued)
unfolding book_revaluation iag_finance.Assets.Restatement.revaluation_tx
    iag_finance.Assets.Rows.lock_asset iag_finance.Assets.Rows.update_asset
    iag_finance.Assets.Restatement.adjust_asset iag_finance.Assets.Restatement.post_asset_adjustment
    iag_finance.Assets.Rows.surplus_of iag_finance.Assets.Rows.from_surplus
    iag_finance.Assets.Rows.revaluation_lines iag_finance.Assets.Rows.decrease_lines
    iag_finance.Assets.Register.find_asset iag_finance.Assets.Lines.add_lines
    iag_finance.Decimal.Fixed.compare_ℤ iag_finance.Calendar.date_of iag_finance.Base.Int.◌+ℤ◌
    iag_finance.Base.Int.neg iag_finance.Decimal.Fixed.on_magnitude
    iag_finance.Decimal.Fixed.round_to iag_finance.Decimal.Fixed.quotient_round
    iag_finance.Revenue.Schedules.account_id_by_code iag_finance.Ledger.Lines.get_account_by_code
    iag_finance.Base.str_eq iag_finance.Decimal.Fixed.ratio
    iag_finance.Ledger.Booking.assert_balanced iag_finance.Ledger.Booking.entry_by_id
    iag_finance.Ledger.Booking.entry_by_source_event iag_finance.Ledger.Booking.insert_posted_entry
    iag_finance.Ledger.Booking.is_balanced iag_finance.Ledger.Booking.next_entry_number
    iag_finance.Ledger.Booking.mark_processed iag_finance.Ledger.Booking.is_event_processed
    iag_finance.Ledger.Lines.base_amount iag_finance.Ledger.Lines.cons_result
    iag_finance.Ledger.Lines.currency_or iag_finance.Ledger.Lines.insert_line
    iag_finance.Ledger.Lines.has_own_dimensions iag_finance.Ledger.Lines.insert_lines
    iag_finance.Ledger.Lines.line_currency iag_finance.Ledger.Lines.line_row
    iag_finance.Ledger.Lines.one_side iag_finance.Ledger.Lines.rate iag_finance.Ledger.Lines.totals
    iag_finance.Decimal.Fixed.times iag_finance.Decimal.Fixed.product iag_finance.Audit.append_audit
first_revaluation = refl

not_impaired : is_event_processed (event_of ctx "fa.impair:" "PRESS" 7) with_press.processed ≡ false
unfolding is_event_processed
not_impaired = refl

not_revalued :
    is_event_processed (event_of ctx "fa.revalue:" "PRESS" 7) with_press.processed ≡ false
unfolding is_event_processed
not_revalued = refl

book_impairment-IsCarriedAt_example : IsCarriedAt (units 600) (some impaired)
book_impairment-IsCarriedAt_example =
    book_impairment-IsCarriedAt ctx fixed-Laws "PRESS" (units 600) 7 none with_press press
      (some impaired) there in_places target not_impaired first_impairment

book_revaluation-IsCarriedAt_example : IsCarriedAt (units 600) (some revalued)
book_revaluation-IsCarriedAt_example =
    book_revaluation-IsCarriedAt ctx fixed-Laws "PRESS" (units 600) 7 none with_press press
      (some revalued) there in_places target not_revalued first_revaluation
