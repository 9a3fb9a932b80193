-- ===== src/Examples/Ledgers.antt =====
-- Requests on a ledger with a posted entry and a draft.
use iag_finance.Base.{
  str_eq, ℕ, String, ◌≡◌, refl, true, false, Option, none, some, List, [], ◌∷◌, All, arith, map,
}
use iag_finance.Base.Int.{ℤ, pos}
use iag_finance.Calendar.{period_of_date, date_of}
use iag_finance.Decimal.{Laws, sum}
use iag_finance.Decimal.Fixed.{fixed, fixed-Laws}
use iag_finance.Store.{
  Store, Context, JournalEntry, posted, closed_period, LineInput, Result, ok, err, draft,
}
use iag_finance.Ledger.Lines.{validate_balance, totals}
use iag_finance.Ledger.Lines.Totals.{Verdict, validate_balance-Verdict}
use iag_finance.Ledger.Periods.{
  EventRef, is_period_closed, find_period, set_period_status, resolve_posting_window,
}
use iag_finance.Ledger.Periods.Closing.{ClosingVerdict, set_period_status-Closing}
use iag_finance.Ledger.Booking.{entry_by_id, is_balanced}
use iag_finance.Ledger.Booking.Events.{book_from_event}
use iag_finance.Ledger.Booking.Balance.{IsBalanced}
use iag_finance.Ledger.Booking.Replay.{IsAtomic, Redelivered, book_from_event-Redelivered}
use iag_finance.Ledger.Entries.{
  CreateEntryInput, create_journal_entry, post_journal_entry, delete_draft_entry,
}
use iag_finance.Ledger.Reversal.{reverse_journal_entry}
use iag_finance.Ledger.History.{HasFreshIds, KeptAs}
use iag_finance.Ledger.History.Atomic.{calls-IsAtomic}
use iag_finance.Ledger.History.Frozen.{posted_in}
use iag_finance.Ledger.History.Closed.{handle_all-posted_in}
use iag_finance.Ledger.History.Requests.{
  Request, create_entry, post_entry, reverse_posted, supersede, book_event, handle_all,
  handle_all-IsBalanced, handle_all-KeptAs,
}
use iag_finance.Ledger.Trial.{TrialBalanceRow, trial_balance, in_range}
use iag_finance.Ledger.Trial.Balance.{Charted, count_active, trial_balance-Even}
use iag_finance.Ledger.Trial.Reversal.{Undone, base_side, reverse_journal_entry-Undone}
use iag_finance.Examples.Data.{ctx, ledger, entry, two_lines, empty_store}

abbrev new_entry : CreateEntryInput ℤ
new_entry = record {
  description = "rent";
  lines = two_lines;
  source_event_id = none;
  source_service = none;
  correlation_id = none;
  created_by = none;
  accounting_date = none;
  counterparty_entity_id = none;
}

abbrev delivery : EventRef
delivery = record {
  id = "e1";
  event_type = "sale";
  source = "pos";
  correlation_id = "";
  occurred_at = none;
}

abbrev requests : List (Context × Request ℤ)
requests =
    (ctx, create_entry new_entry)
    ∷ (ctx, book_event delivery "sale" "UGX" two_lines)
    ∷ (ctx, post_entry 2 "ann")
    ∷ []

abbrev all_requests : List (Context × Request ℤ)
all_requests =
    (ctx, reverse_posted 1 "wrong" "ann") ∷ (ctx, supersede "pos" "doc" "again" "ann") ∷ requests

ledger-fresh : HasFreshIds ledger
ledger-fresh = (omega arith, (omega arith, tt))

ledger-IsBalanced : IsBalanced ledger
unfolding is_balanced totals iag_finance.Decimal.Fixed.compare_ℤ iag_finance.Base.Int.◌+ℤ◌
ledger-IsBalanced = (refl, (refl, tt))

handle_all-IsBalanced_example : IsBalanced (handle_all all_requests ledger)
handle_all-IsBalanced_example =
    handle_all-IsBalanced all_requests ledger ledger-fresh ledger-IsBalanced

posted_found : entry_by_id 1 ledger.entries ≡ some (entry 1 posted)
unfolding entry_by_id
posted_found = refl

handle_all-KeptAs_example :
    KeptAs (entry 1 posted) (entry_by_id 1 (handle_all all_requests ledger).entries)
handle_all-KeptAs_example =
    handle_all-KeptAs all_requests ledger 1 (entry 1 posted) ledger-fresh posted_found refl

abbrev closed_ledger : Store ℤ
closed_ledger = record ledger {
  periods =
      (record { period = 23_640; status = closed_period; closed_at = none; closed_by = none }) ∷ [];
}

closed : is_period_closed 23_640 closed_ledger.periods ≡ true
unfolding is_period_closed find_period
closed = refl

handle_all-posted_in_example :
    posted_in 23_640 (handle_all requests closed_ledger).entries
    ≡ posted_in 23_640 closed_ledger.entries
handle_all-posted_in_example =
    handle_all-posted_in 23_640 requests closed_ledger ledger-fresh closed
      (refl, (refl, (refl, tt)))

ledger-Charted : Charted ledger.accounts ledger.entries
unfolding count_active
ledger-Charted = ((refl, (refl, tt)), ((refl, (refl, tt)), tt))

trial_balance-Even_example :
    sum (map (λ (r : TrialBalanceRow ℤ). r.debit) (trial_balance none none (0 ∷ []) ledger))
    ≡ sum (map (λ (r : TrialBalanceRow ℤ). r.credit) (trial_balance none none (0 ∷ []) ledger))
trial_balance-Even_example =
    trial_balance-Even fixed-Laws none none (0 ∷ []) ledger ledger-IsBalanced ledger-Charted

abbrev booked : Result (Option (JournalEntry ℤ)) × Store ℤ
booked = book_from_event ctx delivery "sale" "UGX" two_lines empty_store

abbrev booked_entry : Option (JournalEntry ℤ) → JournalEntry ℤ
booked_entry none = entry 0 draft
booked_entry (some e) = e

abbrev entry_of : Result (Option (JournalEntry ℤ)) → JournalEntry ℤ
entry_of (ok o) = booked_entry o
entry_of (err _) = entry 0 draft

delivered : booked ≡ (ok (some (entry_of booked.0)), booked.1)
unfolding book_from_event validate_balance iag_finance.Decimal.Fixed.compare_ℤ totals
    iag_finance.Base.Int.◌+ℤ◌ iag_finance.Ledger.Lines.resolve_lines
    iag_finance.Ledger.Lines.resolve_line iag_finance.Ledger.Lines.get_account_by_code str_eq
    resolve_posting_window is_period_closed find_period iag_finance.Ledger.Booking.book_posted_entry
    iag_finance.Ledger.Booking.is_event_processed iag_finance.Ledger.Booking.booking
    iag_finance.Ledger.Booking.next_entry_number iag_finance.Ledger.Booking.insert_posted_entry
    iag_finance.Ledger.Booking.entry_by_source_event iag_finance.Audit.append_audit
    iag_finance.Audit.append_chain iag_finance.Audit.chained iag_finance.Audit.event_hash
    iag_finance.Audit.head_hash date_of iag_finance.Calendar.period_of period_of_date
    iag_finance.Calendar.truncate_micro iag_finance.Ledger.Booking.assert_balanced
    iag_finance.Ledger.Booking.book_tx iag_finance.Ledger.Booking.Events.describe_deferral
    entry_by_id is_balanced iag_finance.Ledger.Booking.mark_processed
    iag_finance.Ledger.Lines.base_amount iag_finance.Ledger.Lines.check_totals
    iag_finance.Ledger.Lines.cons_result iag_finance.Ledger.Lines.currency_or
    iag_finance.Ledger.Lines.insert_line iag_finance.Ledger.Lines.has_own_dimensions
    iag_finance.Ledger.Lines.insert_lines iag_finance.Ledger.Lines.line_currency
    iag_finance.Ledger.Lines.line_row iag_finance.Ledger.Lines.one_side
    iag_finance.Ledger.Lines.rate iag_finance.Ledger.Lines.resolve_from
    iag_finance.Ledger.Lines.violates_natural_side iag_finance.Ledger.Periods.choose_window
    iag_finance.Ledger.Periods.transaction_date iag_finance.Ledger.Rates.get_rate
    iag_finance.Ledger.Rates.latest_rate iag_finance.Ledger.Rates.rate_or_one
    iag_finance.Decimal.Fixed.on_magnitude iag_finance.Decimal.Fixed.round_to
    iag_finance.Decimal.Fixed.times iag_finance.Decimal.Fixed.product iag_finance.Base.Int.neg
delivered = refl

named : str_eq "e1" "" ≡ false
unfolding str_eq
named = refl

book_from_event-Redelivered_example :
    Redelivered
      (entry_of booked.0)
      booked.1
      (book_from_event ctx delivery "again" "" two_lines booked.1)
book_from_event-Redelivered_example =
    book_from_event-Redelivered ctx ctx delivery "sale" "UGX" "again" "" two_lines two_lines
      empty_store booked.1 (entry_of booked.0) named delivered

calls-IsAtomic_example :
    IsAtomic ledger (create_journal_entry ctx new_entry ledger)
    × IsAtomic ledger (post_journal_entry ctx 1 "ann" ledger)
    × IsAtomic ledger (delete_draft_entry ctx 1 ledger)
    × IsAtomic ledger (reverse_journal_entry ctx 1 "wrong" "ann" ledger)
    × IsAtomic ledger (book_from_event ctx delivery "sale" "UGX" [] ledger)
    × IsAtomic ledger (set_period_status ctx 23_640 closed_period none ledger)
calls-IsAtomic_example =
    calls-IsAtomic ctx ledger 1 "sale" "wrong" "ann" "UGX" none new_entry delivery [] 23_640
      closed_period

reverse_journal_entry-Undone_example :
    Undone fixed-Laws ctx
      (base_side true)
      (in_range none none (0 ∷ []))
      1
      (entry 1 posted)
      ledger
      (reverse_journal_entry ctx 1 "wrong" "ann" ledger)
reverse_journal_entry-Undone_example =
    reverse_journal_entry-Undone fixed-Laws ctx true none none (0 ∷ []) 1 1 "wrong" "ann" ledger
      (entry 1 posted) ledger-fresh posted_found

set_period_status-Closing_example :
    ClosingVerdict ctx 23_640 none 23_639 ledger
      (set_period_status ctx 23_640 closed_period none ledger)
set_period_status-Closing_example = set_period_status-Closing ctx 23_640 none 23_639 ledger

validate_balance-Verdict_example :
    Verdict
      (validate_balance two_lines)
      (sum (map (λ (l : LineInput ℤ). l.debit) two_lines))
      (sum (map (λ (l : LineInput ℤ). l.credit) two_lines))
validate_balance-Verdict_example = validate_balance-Verdict fixed-Laws two_lines
