-- ===== src/Examples/Recognising.antt =====
-- A revenue schedule and its slices.
use iag_finance.Base.{
  ℕ, suc, ◌<◌, String, ◌≡◌, refl, Bool, true, false, Option, none, some, List, [], ◌∷◌, map, length,
  arith, str_eq, inl, inr,
}
use iag_finance.Base.Int.{ℤ, pos}
use iag_finance.Decimal.{add, sum, greater_than, less_than_or_equal}
use iag_finance.Decimal.Fixed.{fixed, fixed-Laws}
use iag_finance.Store.{Store, ScheduleLine, ok}
use iag_finance.Ledger.Lines.{line_row}
use iag_finance.Ledger.Booking.{is_event_processed, entry_by_source_event, is_empty}
use iag_finance.Revenue.Slices.{ratable_slices, ratable_slices-sum}
use iag_finance.Revenue.Schedules.{account_id_by_code, deferred_code, revenue_code}
use iag_finance.Revenue.Recognition.{due_lines, run_recognition, total_of}
use iag_finance.Revenue.Plan.{is_ok, run_recognition-again}
use iag_finance.Examples.Data.{units, ctx, accounts, empty_store, audit_info}

ratable_slices-sum_example :
    (sum (ratable_slices (units 100) 3) ≡ units 100) × (length (ratable_slices (units 100) 3) ≡ 3)
ratable_slices-sum_example = ratable_slices-sum fixed-Laws (units 100) 3 (omega arith)

abbrev due_line : ScheduleLine ℤ
due_line = record { id = 1; schedule_id = 1; period = 5; amount = units 2; journal_entry_id = none }

abbrev with_due : Store ℤ
with_due = record empty_store {
  schedule_lines = due_line ∷ [];
  processed = ("revrec:p", "finance.revenue.recognize") ∷ [];
}

run_again : is_event_processed "revrec:p" with_due.processed ≡ true
unfolding is_event_processed str_eq
run_again = refl

run_named : str_eq "revrec:p" "" ≡ false
unfolding str_eq
run_named = refl

has_due : is_empty (due_lines 6 with_due.schedule_lines) ≡ false
unfolding due_lines iag_finance.Decimal.Fixed.compare_ℤ
has_due = refl

due_positive :
    less_than_or_equal (total_of (pos 0) (due_lines 6 with_due.schedule_lines)) (pos 0) ≡ false
unfolding due_lines total_of iag_finance.Decimal.Fixed.compare_ℤ iag_finance.Base.Int.◌+ℤ◌
due_positive = refl

deferred_found : is_ok (account_id_by_code deferred_code accounts) ≡ true
unfolding account_id_by_code iag_finance.Ledger.Lines.get_account_by_code str_eq
deferred_found = refl

revenue_found : is_ok (account_id_by_code revenue_code accounts) ≡ true
unfolding account_id_by_code iag_finance.Ledger.Lines.get_account_by_code str_eq
revenue_found = refl

run_recognition-again_example : run_recognition ctx 6 "p" 7 audit_info with_due ≡ (
  ok (
    entry_by_source_event "revrec:p" with_due.entries,
    total_of (pos 0) (due_lines 6 with_due.schedule_lines),
    length (due_lines 6 with_due.schedule_lines),
  ),
  with_due,
)
run_recognition-again_example =
    run_recognition-again ctx 6 "p" 7 audit_info with_due run_again run_named has_due due_positive
      deferred_found revenue_found
