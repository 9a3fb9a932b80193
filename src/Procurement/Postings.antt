-- ===== src/Procurement/Postings.antt =====
-- The postings: BookGRNAccrual and BookAPInvoice of internal/ledger/grir.go, and
-- BookInventoryMovement of internal/ledger/inventory.go.
use iag_finance.Base.{
  String, Bool, not, ◌&&◌, ◌||◌, Option, none, some, List, [], ◌∷◌, ◌++◌, if◌then◌else◌, str_eq,
  concat, ℕ,
}
use iag_finance.Calendar.{date_of}
use iag_finance.Decimal.{
  Decimal, nought, sub, mul, abs, round, is_zero, is_positive, is_negative, greater_than,
  less_than_or_equal,
}
use iag_finance.Store.{
  LineInput, JournalEntry, AuditInfo, Store, Context, Action, empty_entry, pure, gets, lift,
  raise_if, ◌>>=◌, ◌>>◌,
}
use iag_finance.Ledger.Lines.{resolve_lines, validate_balance}
use iag_finance.Ledger.Booking.{book_posted_entry, is_empty}
use iag_finance.Ledger.Booking.Events.{book_from_event, describe_deferral, event_params}
use iag_finance.Ledger.Periods.{EventRef, resolve_posting_window}
use iag_finance.Ledger.Rates.{rate_or_one}
use iag_finance.Procurement.Accruals.{add_grni_accrual, clear_grni_accrual, get_tax_code}

abbrev pub or_base : Context → String → String
or_base c currency = if str_eq currency "" then c.base_currency else currency

-- A text with its reference.
abbrev pub with_ref : String → String → String
with_ref text ref = if str_eq ref "" then text else concat text (concat " " ref)

module _ {D : Type 0} ⦃dec : Decimal D⦄ where
  abbrev pub input : String → D → D → String → LineInput D
  input code debit credit memo = record {
    account_code = code;
    debit = debit;
    credit = credit;
    memo = memo;
    cost_center_id = none;
    project_id = none;
  }

  abbrev pub debit_positive : String → D → String → List (LineInput D)
  debit_positive code amount memo =
      if is_positive amount then input code amount nought memo ∷ [] else []

  -- The part that goes to stock, between nought and the value.
  unfoldable pub stock_part : D → D → D
  stock_part value inventory_value =
      let stock = if is_negative inventory_value then nought else inventory_value in
      if greater_than stock value then value else stock

  unfoldable pub grn_accrual_lines : D → D → List (LineInput D)
  grn_accrual_lines value inventory_value =
      let stock = stock_part value inventory_value in
      debit_positive "1400" stock "Goods received into stock"
      ++ (debit_positive "5000" (sub value stock) "Goods received (GRNI)"
          ++ (input "2150" nought value "GR/IR accrual" ∷ []))

  -- VAT that makes no sense is ignored.
  abbrev pub sensible_vat : D → D → D
  sensible_vat gross vat = if is_negative vat || greater_than vat gross then nought else vat

  -- The debit of the net: to clearing, or split between stock and expense.
  unfoldable pub net_debits : Bool → D → D → List (LineInput D)
  net_debits to_clearing net inventory_value =
      if to_clearing
      then input "2150" net nought "GR/IR clearing" ∷ []
      else if is_positive net
      then debit_positive "1400" (stock_part net inventory_value) "Purchased into stock"
        ++ debit_positive "5000" (sub net (stock_part net inventory_value)) "Expense / COGS"
      else []

  abbrev pub reverse_charge_lines : D → List (LineInput D)
  reverse_charge_lines vat =
      if is_positive vat
      then input "1300" vat nought "Reverse-charge input VAT"
        ∷ input "2100" nought vat "Reverse-charge output VAT"
        ∷ []
      else []

  unfoldable pub ap_invoice_lines : Bool → D → D → D → D → List (LineInput D)
  ap_invoice_lines to_clearing gross vat inventory_value self_assessed =
      net_debits to_clearing (sub gross vat) inventory_value
      ++ (debit_positive "1300" vat "Input VAT"
          ++ (input "2000" nought gross "AP liability" ∷ reverse_charge_lines self_assessed))

  abbrev pub rate_of_code : Option (D × Bool) → D → D
  rate_of_code none net = nought
  rate_of_code (some (rate, _)) net = round 2 (mul net rate)

  -- The VAT that the buyer assesses.
  unfoldable pub self_assessed_vat : Bool → String → D → Store D → D
  self_assessed_vat reverse_charge tax_code net s =
      if reverse_charge && not (str_eq tax_code "")
      then rate_of_code (get_tax_code tax_code s.tax_codes) net
      else nought

  abbrev pub two_sides : String → String → D → String → List (LineInput D)
  two_sides debit credit amount memo =
      input debit amount nought memo ∷ input credit nought amount memo ∷ []

  -- linesForMovement; no lines is a movement without cost.
  unfoldable pub lines_for_movement : String → String → D → D → String → List (LineInput D)
  lines_for_movement kind source amount total_cost memo =
      if str_eq kind "receipt"
      then (if str_eq source "procurement_grn" then [] else two_sides "1400" "2150" amount memo)
      else if str_eq kind "issue"
      then two_sides "5000" "1400" amount memo
      else if str_eq kind "return"
      then two_sides "1400" "5000" amount memo
      else if str_eq kind "production_consume"
      then two_sides "1450" "1400" amount memo
      else if str_eq kind "production_output"
      then two_sides "1400" "1450" amount memo
      else if str_eq kind "adjustment"
      then (if is_negative total_cost
          then two_sides "5000" "1400" amount memo
          else two_sides "1400" "5000" amount memo)
      else []

module _ {D : Type 0} ⦃dec : Decimal D⦄ (c : Context) where
  -- The common end of both postings.
  unfoldable pub book_dated :
      EventRef
      → String
      → String
      → List (LineInput D)
      → (ℕ → Action D (Unit {0}))
      → (String → AuditInfo)
      → Action D (Option (JournalEntry D))
  book_dated ref description currency lines side audit = do
    resolved ← (λ s. (resolve_lines s.accounts lines, s))
    window ← (λ s. (resolve_posting_window c.now ref s.periods, s))
    let described = describe_deferral c description window
    fx_rate ←
        gets (λ s. rate_or_one c.base_currency currency (date_of window.transaction_time) s.rates)
    book_posted_entry c (event_params c ref described currency fx_rate window resolved) ref.id
        ref.event_type c.now side (some (audit described))

  -- BookGRNAccrual
  unfoldable pub book_grn_accrual :
      EventRef → String → String → D → D → D → Action D (Option (JournalEntry D))
  book_grn_accrual ref currency po value inventory_value quantity =
      if str_eq po "" || less_than_or_equal value nought
      then pure none
      else book_dated ref (concat "Goods received accrual — PO " po) (or_base c currency)
          (grn_accrual_lines value inventory_value)
          (λ _. add_grni_accrual po (or_base c currency) value quantity)
          (λ _. record {
            actor = concat "system:" ref.source;
            event_type = "ledger.grni.accrued";
            message = concat "GR/IR accrual for PO " po;
          })

  abbrev pub clear_if : Bool → String → String → D → D → ℕ → Action D (Unit {0})
  clear_if to_clearing po currency net quantity entry =
      if to_clearing then clear_grni_accrual po currency net quantity else pure tt

  abbrev pub book_invoice_lines :
      EventRef
      → String
      → String
      → List (LineInput D)
      → (ℕ → Action D (Unit {0}))
      → Action D (Option (JournalEntry D))
  book_invoice_lines ref description currency lines side = do
    lift (validate_balance lines)
    book_dated ref description currency lines side (λ described. record {
      actor = concat "system:" ref.source;
      event_type = "ledger.booked";
      message = described;
    })

  -- BookAPInvoice
  unfoldable pub book_ap_invoice :
      EventRef
      → String
      → String
      → String
      → D
      → D
      → D
      → Bool
      → String
      → D
      → Action D (Option (JournalEntry D))
  book_ap_invoice ref description currency po gross vat inventory_value reverse_charge tax_code
        quantity =
      do
        raise_if (less_than_or_equal gross nought) empty_entry
        let net = sub gross (sensible_vat gross vat)
        let to_clearing = not (str_eq po "") && is_positive net
        self_assessed ← gets (λ s. self_assessed_vat reverse_charge tax_code net s)
        book_invoice_lines ref description (or_base c currency)
            (ap_invoice_lines to_clearing gross (sensible_vat gross vat) inventory_value
              self_assessed)
            (clear_if to_clearing po (or_base c currency) net quantity)

  abbrev pub book_movement_lines :
      EventRef → String → String → List (LineInput D) → Action D (Option (JournalEntry D))
  book_movement_lines ref description currency lines =
      if is_empty lines then pure none else book_from_event c ref description currency lines

  -- BookInventoryMovement
  unfoldable pub book_inventory_movement :
      EventRef → String → String → String → String → D → Action D (Option (JournalEntry D))
  book_inventory_movement ref kind source doc_ref currency total_cost =
      if is_zero (abs total_cost)
      then pure none
      else book_movement_lines ref (with_ref (concat "Inventory movement " kind) doc_ref)
          (or_base c currency)
          (lines_for_movement kind source (abs total_cost) total_cost
            (with_ref (concat "Inventory " kind) doc_ref))
