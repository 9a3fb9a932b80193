-- ===== src/Examples/Purchasing.antt =====
-- A goods receipt and its invoice.
use iag_finance.Base.{◌≡◌, refl, true, false}
use iag_finance.Base.Int.{pos}
use iag_finance.Decimal.{less_than_or_equal}
use iag_finance.Decimal.Fixed.{fixed, fixed-Laws}
use iag_finance.Store.{ok, ◌>>◌}
use iag_finance.Ledger.Lines.{validate_balance}
use iag_finance.Procurement.Accruals.{add_grni_accrual, clear_grni_accrual}
use iag_finance.Procurement.Clearing.{grni_accrual-swap}
use iag_finance.Procurement.Postings.{grn_accrual_lines, ap_invoice_lines, sensible_vat}
use iag_finance.Procurement.Balance.{purchases-Accepted}
use iag_finance.Examples.Data.{units, empty_store}

grni_accrual-swap_example :
    (add_grni_accrual "PO1" "UGX" (units 50) (units 5)
        >> clear_grni_accrual "PO1" "UGX" (units 40) (units 4))
      empty_store
    ≡ (clear_grni_accrual "PO1" "UGX" (units 40) (units 4)
          >> add_grni_accrual "PO1" "UGX" (units 50) (units 5))
        empty_store
grni_accrual-swap_example =
    grni_accrual-swap "PO1" "UGX" (units 50) (units 40) (units 5) (units 4) empty_store

fifty_positive : less_than_or_equal (units 50) (pos 0) ≡ false
unfolding iag_finance.Decimal.Fixed.compare_ℤ
fifty_positive = refl

gross_positive : less_than_or_equal (units 118) (pos 0) ≡ false
unfolding iag_finance.Decimal.Fixed.compare_ℤ
gross_positive = refl

purchases-Accepted_example :
    (validate_balance (grn_accrual_lines (units 50) (units 30)) ≡ ok tt)
    × (validate_balance (
          ap_invoice_lines true
            (units 118)
            (sensible_vat (units 118) (units 18))
            (units 30)
            (units 5))
        ≡ ok tt)
purchases-Accepted_example =
    purchases-Accepted fixed-Laws true (units 50) (units 118) (units 18) (units 30) (units 5)
      fifty_positive gross_positive
