-- ===== src/Examples/Closing.antt =====
-- The close of a year.
use iag_finance.Base.{◌≡◌, refl, true, false, none, List, [], ◌∷◌, ◌++◌, Option, ◌+◌, ◌*◌, arith}
use iag_finance.Base.Int.{ℤ}
use iag_finance.Decimal.Fixed.{fixed, fixed-Laws}
use iag_finance.Store.{ok, Store, JournalEntry, posted, asset, revenue, equity}
use iag_finance.Ledger.Lines.{validate_balance}
use iag_finance.Ledger.Booking.{is_empty, entry_by_id}
use iag_finance.YearEnd.{AccountBalance, closing_lines, earnings_lines, close_fiscal_year}
use iag_finance.YearEnd.Balance.{closing_lines-Accepted}
use iag_finance.YearEnd.Locked.{IsLocked, close_fiscal_year-IsLocked}
use iag_finance.Examples.Data.{units, ctx, account, entry, empty_store}

abbrev balances : List (AccountBalance ℤ)
balances =
    (record { code = "4000"; is_revenue = true; balance = units 100 })
    ∷ (record { code = "6000"; is_revenue = false; balance = units 140 })
    ∷ []

balances_open : is_empty (closing_lines (units 0) balances).0 ≡ false
unfolding closing_lines iag_finance.Decimal.Fixed.compare_ℤ
balances_open = refl

closing_lines-Accepted_example :
    let (lines, net) = closing_lines (units 0) balances in
    validate_balance (lines ++ earnings_lines net) ≡ ok tt
closing_lines-Accepted_example = closing_lines-Accepted fixed-Laws balances balances_open

abbrev sale : JournalEntry ℤ
sale = record (entry 1 posted) { accounting_date = 18_300 }

abbrev to_close : Store ℤ
to_close = record empty_store {
  accounts =
      record (account 1 "1000") { account_type = asset }
      ∷ (record (account 6 "3000") { account_type = equity }
          ∷ (record (account 5 "4000") { account_type = revenue } ∷ []));
  entries = sale ∷ [];
}

abbrev closed : Store ℤ
closed = (close_fiscal_year ctx 2020 "2020" "ann" none to_close).1

abbrev closing_entry : Option (JournalEntry ℤ)
closing_entry = entry_by_id 10 closed.entries

close_succeeds : (close_fiscal_year ctx 2020 "2020" "ann" none to_close).0 ≡ ok closing_entry
unfolding close_fiscal_year iag_finance.YearEnd.book_close iag_finance.YearEnd.close_months
    iag_finance.YearEnd.revenue_expense_balances iag_finance.YearEnd.year_balance
    iag_finance.YearEnd.count_drafts_in_year iag_finance.YearEnd.zeroing_line closing_lines
    earnings_lines validate_balance iag_finance.Ledger.Lines.check_totals
    iag_finance.Ledger.Lines.totals iag_finance.Ledger.Lines.resolve_lines
    iag_finance.Ledger.Lines.resolve_from iag_finance.Ledger.Lines.resolve_line
    iag_finance.Ledger.Lines.violates_natural_side iag_finance.Ledger.Lines.get_account_by_code
    iag_finance.Ledger.Lines.cons_result iag_finance.Ledger.Lines.base_amount
    iag_finance.Ledger.Lines.currency_or iag_finance.Ledger.Lines.insert_line
    iag_finance.Ledger.Lines.insert_lines iag_finance.Ledger.Lines.has_own_dimensions
    iag_finance.Ledger.Lines.line_currency iag_finance.Ledger.Lines.line_row
    iag_finance.Ledger.Lines.one_side iag_finance.Ledger.Lines.rate
    iag_finance.Ledger.Booking.book_posted_entry iag_finance.Ledger.Booking.book_tx
    iag_finance.Ledger.Booking.booking iag_finance.Ledger.Booking.assert_balanced
    iag_finance.Ledger.Booking.entry_by_source_event iag_finance.Ledger.Booking.insert_posted_entry
    iag_finance.Ledger.Booking.is_balanced iag_finance.Ledger.Booking.next_entry_number
    iag_finance.Ledger.Booking.mark_processed iag_finance.Ledger.Booking.is_event_processed
    entry_by_id iag_finance.Ledger.Trial.sum_entries iag_finance.Ledger.Trial.sum_lines
    iag_finance.Ledger.Periods.set_period_status iag_finance.Ledger.Periods.upsert_period
    iag_finance.Ledger.Periods.count_drafts iag_finance.Audit.append_audit
    iag_finance.Audit.append_chain iag_finance.Decimal.Fixed.compare_ℤ
    iag_finance.Decimal.Fixed.on_magnitude iag_finance.Decimal.Fixed.round_to
    iag_finance.Decimal.Fixed.times iag_finance.Decimal.Fixed.product iag_finance.Base.Int.◌+ℤ◌
    iag_finance.Base.Int.neg iag_finance.Base.str_eq iag_finance.Calendar.date_of
    iag_finance.Calendar.period_end iag_finance.Calendar.first_day
    iag_finance.Calendar.period_of_date
close_succeeds = refl

close_fiscal_year-IsLocked_example : IsLocked ctx (2020 * 12 + 5) closed
close_fiscal_year-IsLocked_example =
    close_fiscal_year-IsLocked ctx 2020 "2020" "ann" none 5 to_close closing_entry (omega arith)
      close_succeeds
