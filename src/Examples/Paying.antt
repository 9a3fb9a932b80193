-- ===== src/Examples/Paying.antt =====
-- Payments on an open item.
use iag_finance.Base.{
  ℕ, suc, ◌<◌, String, ◌≡◌, refl, Bool, true, false, Option, none, some, List, [], ◌∷◌, map, length,
  arith, str_eq, inl, inr,
}
use iag_finance.Base.Int.{ℤ, pos}
use iag_finance.Decimal.{add, sum, greater_than, less_than_or_equal}
use iag_finance.Decimal.Fixed.{fixed, fixed-Laws}
use iag_finance.Store.{Store, OpenItem, open_item, Payment, ar, Result, ok, err, ResolvedLine}
use iag_finance.Ledger.Lines.{line_row}
use iag_finance.Ledger.Booking.{base_totals, is_event_processed, entry_by_source_event, is_empty}
use iag_finance.Payments.Settlement.{find_item, settlement_lines}
use iag_finance.Payments.Journal.{PaymentWithJournalParams, apply_payment_with_journal}
use iag_finance.Payments.Balance.{Even, settlement_lines-Even}
use iag_finance.Payments.Paid.{ItemsOk, apply_payment_with_journal-ItemsOk}
use iag_finance.Payments.Replay.{apply_payment_with_journal-again}
use iag_finance.Examples.Data.{units, ctx, accounts, empty_store, audit_info}

abbrev item : OpenItem ℤ
item = record {
  id = 1;
  party_ref = "c";
  document_ref = "inv";
  amount = units 9;
  amount_paid = pos 0;
  currency = "UGX";
  status = open_item;
  fx_rate = units 1;
}

abbrev with_item : Store ℤ
with_item = record empty_store { ar_items = item ∷ [] }

abbrev lines_of : Result (List (ResolvedLine ℤ)) → List (ResolvedLine ℤ)
lines_of (ok ls) = ls
lines_of (err _) = []

abbrev settled : Result (List (ResolvedLine ℤ))
settled = settlement_lines accounts "UGX" ar (units 4) "USD" (units 2) (units 3)

abbrev payment : ℤ → PaymentWithJournalParams ℤ
payment amount = record {
  event_id = "p1";
  event_type = "payment.received";
  source = "iag.finance";
  correlation_id = "";
  description = "AR";
  direction = ar;
  open_item_id = 1;
  amount = amount;
  currency = "UGX";
  payment_ref = "p1";
  fx_rate = units 1;
  lines = lines_of settled;
  outbox = none;
}

lines_settled : settled ≡ ok (lines_of settled)
unfolding settlement_lines iag_finance.Payments.Settlement.settlement_legs
    iag_finance.Payments.Settlement.resolve_account iag_finance.Ledger.Lines.get_account_by_code
    iag_finance.Base.str_eq iag_finance.Payments.Settlement.residual_lines
    iag_finance.Decimal.Fixed.compare_ℤ iag_finance.Base.Int.◌+ℤ◌
    iag_finance.Decimal.Fixed.on_magnitude iag_finance.Decimal.Fixed.round_to
    iag_finance.Decimal.Fixed.times iag_finance.Base.Int.neg iag_finance.Decimal.Fixed.product
lines_settled = refl

settlement_lines-Even_example :
    Even fixed-Laws (base_totals (map (line_row (units 2) "USD") (lines_of settled)))
settlement_lines-Even_example =
    settlement_lines-Even fixed-Laws accounts "UGX" ar (units 4) "USD" (units 2) (units 3) (units 2)
      "USD" (lines_of settled) lines_settled

with_item-ItemsOk : ItemsOk with_item
unfolding iag_finance.Decimal.Fixed.on_magnitude iag_finance.Decimal.Fixed.round_to
    iag_finance.Decimal.Fixed.compare_ℤ
with_item-ItemsOk =
    ((((refl, refl, refl, inr ((λ e. ground (arith, e)), (λ e. ground (arith, e))))), tt), tt)

two_places : fixed.rounded 2 (units 4) ≡ units 4
unfolding iag_finance.Decimal.Fixed.on_magnitude iag_finance.Decimal.Fixed.round_to
two_places = refl

apply_payment_with_journal-ItemsOk_example :
    ItemsOk (apply_payment_with_journal ctx (payment (units 4)) audit_info with_item).1
apply_payment_with_journal-ItemsOk_example =
    apply_payment_with_journal-ItemsOk fixed-Laws ctx (payment (units 4)) audit_info with_item
      two_places with_item-ItemsOk

unseen : is_event_processed "p1" [] ≡ false
unfolding is_event_processed
unseen = refl

item_found : find_item 1 (item ∷ []) ≡ some item
unfolding find_item
item_found = refl

too_much : greater_than (add (pos 0) (units 10)) (units 9) ≡ true
unfolding iag_finance.Decimal.Fixed.compare_ℤ iag_finance.Base.Int.◌+ℤ◌
too_much = refl

abbrev paid : Result (Payment ℤ) × Store ℤ
paid = apply_payment_with_journal ctx (payment (units 4)) audit_info with_item

abbrev no_payment : Payment ℤ
no_payment = record {
  id = 0;
  direction = ar;
  open_item_id = 0;
  amount = pos 0;
  currency = "";
  payment_ref = "";
  journal_entry_id = 0;
}

abbrev payment_of : Result (Payment ℤ) → Payment ℤ
payment_of (ok p) = p
payment_of (err _) = no_payment

paid_once : paid ≡ (ok (payment_of paid.0), paid.1)
unfolding apply_payment_with_journal is_event_processed find_item iag_finance.Payments.Apply.applied
    iag_finance.Decimal.Fixed.compare_ℤ iag_finance.Base.Int.◌+ℤ◌
    iag_finance.Payments.Journal.book_payment iag_finance.Ledger.Booking.next_entry_number
    iag_finance.Ledger.Booking.insert_posted_entry str_eq entry_by_source_event
    iag_finance.Ledger.Lines.insert_lines settlement_lines
    iag_finance.Payments.Settlement.settlement_legs iag_finance.Payments.Settlement.resolve_account
    iag_finance.Ledger.Lines.get_account_by_code iag_finance.Payments.Settlement.residual_lines
    iag_finance.Decimal.Fixed.on_magnitude iag_finance.Decimal.Fixed.round_to
    iag_finance.Decimal.Fixed.times iag_finance.Decimal.Fixed.product iag_finance.Base.Int.neg
    iag_finance.Audit.append_audit iag_finance.Audit.append_chain iag_finance.Audit.chained
    iag_finance.Audit.event_hash iag_finance.Audit.head_hash iag_finance.Calendar.date_of
    iag_finance.Calendar.truncate_micro iag_finance.Ledger.Booking.assert_balanced
    iag_finance.Ledger.Booking.entry_by_id iag_finance.Ledger.Booking.is_balanced
    iag_finance.Ledger.Booking.mark_processed iag_finance.Ledger.Lines.base_amount
    iag_finance.Ledger.Lines.cons_result iag_finance.Ledger.Lines.currency_or
    iag_finance.Ledger.Lines.insert_line iag_finance.Ledger.Lines.has_own_dimensions
    iag_finance.Ledger.Lines.line_currency line_row iag_finance.Ledger.Lines.one_side
    iag_finance.Ledger.Lines.rate iag_finance.Ledger.Lines.totals
    iag_finance.Payments.Apply.enqueue_outbox iag_finance.Payments.Apply.insert_payment
    iag_finance.Payments.Apply.outbox_has iag_finance.Payments.Apply.payment_by_entry
    iag_finance.Payments.Apply.payment_by_source_event iag_finance.Payments.Apply.payment_taken
    iag_finance.Payments.Journal.payment_tx iag_finance.Payments.Journal.record_payment
    iag_finance.Payments.Apply.set_paid iag_finance.Payments.Apply.update_item
    iag_finance.Payments.Settlement.ap_legs iag_finance.Payments.Settlement.ar_legs
    iag_finance.Payments.Settlement.with_residual
paid_once = refl

named : str_eq "p1" "" ≡ false
unfolding str_eq
named = refl

apply_payment_with_journal-again_example :
    apply_payment_with_journal ctx (payment (units 1)) audit_info paid.1
    ≡ (ok (payment_of paid.0), paid.1)
apply_payment_with_journal-again_example =
    apply_payment_with_journal-again ctx (payment (units 4)) (payment (units 1)) audit_info
      audit_info with_item paid.1 (payment_of paid.0) named refl unseen paid_once
