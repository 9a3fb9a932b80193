-- ===== src/Examples/Adjusting.antt =====
-- Credit notes on an open item.
use iag_finance.Base.{◌≡◌, refl, arith, str_eq, inr, some, [], ◌∷◌}
use iag_finance.Base.Int.{ℤ, pos}
use iag_finance.Decimal.{neg}
use iag_finance.Decimal.Fixed.{fixed, fixed-Laws}
use iag_finance.Store.{Store, OpenItem, open_item, ar, err, check_violation}
use iag_finance.Approvals.Tiers.{Texts}
use iag_finance.Payments.Paid.{ItemsOk}
use iag_finance.Adjustments.Items.{find_document, unless_closed, adjust_open_item_amount}
use iag_finance.Adjustments.Notes.{AdjustmentInput, create_adjustment}
use iag_finance.Adjustments.Floor.{create_adjustment-ItemsOk, adjust_open_item_amount-whole}
use iag_finance.Examples.Data.{units, ctx, empty_store}

abbrev invoice : OpenItem ℤ
invoice = record {
  id = 1;
  party_ref = "c";
  document_ref = "inv";
  amount = units 9;
  amount_paid = pos 0;
  currency = "UGX";
  status = open_item;
  fx_rate = units 1;
}

abbrev invoiced : Store ℤ
invoiced = record empty_store { ar_items = invoice ∷ [] }

abbrev note_texts : Texts
note_texts = record { trim_space = λ s. s; equal_fold = str_eq; lower = λ s. s }

abbrev note : AdjustmentInput ℤ
note = record {
  kind = "credit_note";
  direction = "ar";
  original_document_ref = "inv";
  document_ref = "CN1";
  reason = "";
  amount = units 4;
  currency = "UGX";
}

note_places : iag_finance.Decimal.round {D = ℤ} 2 note.amount ≡ note.amount
unfolding iag_finance.Decimal.Fixed.on_magnitude iag_finance.Decimal.Fixed.round_to
note_places = refl

invoiced-ok : ItemsOk invoiced
unfolding iag_finance.Decimal.Fixed.on_magnitude iag_finance.Decimal.Fixed.round_to
    iag_finance.Decimal.Fixed.compare_ℤ
invoiced-ok =
    ((((refl, refl, refl, inr ((λ e. ground (arith, e)), (λ e. ground (arith, e))))), tt), tt)

create_adjustment-ItemsOk_example : ItemsOk (create_adjustment ctx note_texts note "ann" invoiced).1
create_adjustment-ItemsOk_example =
    create_adjustment-ItemsOk fixed-Laws ctx note_texts note "ann" invoiced note_places invoiced-ok

invoice_found : unless_closed (find_document "inv" invoiced.ar_items) ≡ some invoice
unfolding find_document str_eq
invoice_found = refl

adjust_open_item_amount-whole_example :
    adjust_open_item_amount ar "inv" (neg (units 9)) invoiced ≡ (err check_violation, invoiced)
adjust_open_item_amount-whole_example =
    adjust_open_item_amount-whole fixed-Laws ctx ar "inv" invoice invoiced invoice_found refl
