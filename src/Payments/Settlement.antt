-- ===== src/Payments/Settlement.antt =====
-- The entry of a settlement with realized FX gain or loss: settlementLines, settlementRates and
-- ParsePaymentAmount of internal/ledger/payments.go, and OpenItemFXRate of internal/repository/fx.go.
use iag_finance.Base.{ℕ, String, Option, none, some, List, [], ◌∷◌, ◌++◌, if◌then◌else◌, ◌==◌}
use iag_finance.Calendar.{date_of}
use iag_finance.Decimal.{
  Decimal, nought, from_int, sub, abs, mul, round, is_zero, is_positive, less_than_or_equal,
}
use iag_finance.Store.{
  Account, Direction, ar, ap, OpenItem, ResolvedLine, Store, Context, Result, ok, err,
  account_not_found,
}
use iag_finance.Ledger.Lines.{get_account_by_code}
use iag_finance.Ledger.Rates.{get_rate}

-- resolveAccount
unfoldable pub resolve_account : List Account → String → Result Account
resolve_account accounts code = elim (get_account_by_code code accounts) [
  | none ↦ err account_not_found
  | some a ↦ ok a
]

-- One side of a resolved line that has its own currency and base amount.
abbrev pub debit_line :
    {D : Type 0} ⦃dec : Decimal D⦄ → ℕ → D → String → D → String → ℕ → ResolvedLine D
debit_line account_id amount currency base memo line_order = record {
  account_id = account_id;
  debit = amount;
  credit = nought;
  memo = memo;
  line_order = line_order;
  currency = currency;
  debit_base = some base;
  credit_base = none;
  cost_center_id = none;
  project_id = none;
}

abbrev pub credit_line :
    {D : Type 0} ⦃dec : Decimal D⦄ → ℕ → D → String → D → String → ℕ → ResolvedLine D
credit_line account_id amount currency base memo line_order = record {
  account_id = account_id;
  debit = nought;
  credit = amount;
  memo = memo;
  line_order = line_order;
  currency = currency;
  debit_base = none;
  credit_base = some base;
  cost_center_id = none;
  project_id = none;
}

module _ {D : Type 0} ⦃dec : Decimal D⦄ where
  -- The two legs of a receipt and of a disbursement, and the residual in base currency.
  unfoldable pub ar_legs :
      D → String → D → D → Result Account → Result Account → Result (List (ResolvedLine D) × D)
  ar_legs amount currency cash_base clear_base (ok cash) (ok receivable) = ok (
    debit_line cash.id amount currency cash_base "Cash receipt" 0
        ∷ credit_line receivable.id amount currency clear_base "AR clearance" 1
        ∷ [],
    sub cash_base clear_base,
  )
  ar_legs amount currency cash_base clear_base (ok cash) (err e) = err e
  ar_legs amount currency cash_base clear_base (err e) _ = err e

  unfoldable pub ap_legs :
      D → String → D → D → Result Account → Result Account → Result (List (ResolvedLine D) × D)
  ap_legs amount currency cash_base clear_base (ok cash) (ok payable) = ok (
    debit_line payable.id amount currency clear_base "AP clearance" 0
        ∷ credit_line cash.id amount currency cash_base "Cash disbursement" 1
        ∷ [],
    sub clear_base cash_base,
  )
  ap_legs amount currency cash_base clear_base (ok cash) (err e) = err e
  ap_legs amount currency cash_base clear_base (err e) _ = err e

  unfoldable pub settlement_legs :
      List Account → Direction → D → String → D → D → Result (List (ResolvedLine D) × D)
  unfolding ar_legs ap_legs
  settlement_legs accounts ar amount currency cash_base clear_base =
      ar_legs amount currency cash_base clear_base (resolve_account accounts "1000")
        (resolve_account accounts "1100")
  settlement_legs accounts ap amount currency cash_base clear_base =
      ap_legs amount currency cash_base clear_base (resolve_account accounts "1000")
        (resolve_account accounts "2000")

  -- The line for the residual: a gain on 7200 or a loss on 7210.
  unfoldable pub residual_lines : List Account → String → D → Result (List (ResolvedLine D))
  unfolding resolve_account
  residual_lines accounts base residual =
      if is_zero residual
      then ok []
      else if is_positive residual
      then elim (resolve_account accounts "7200") [
        | err e ↦ err e
        | ok gain ↦ ok (credit_line gain.id residual base residual "Realized FX gain" 2 ∷ [])
      ]
      else elim (resolve_account accounts "7210") [
        | err e ↦ err e
        | ok loss ↦
            ok (debit_line loss.id (abs residual) base (abs residual) "Realized FX loss" 2 ∷ [])
      ]

  abbrev pub append_result :
      List (ResolvedLine D) → Result (List (ResolvedLine D)) → Result (List (ResolvedLine D))
  append_result legs (ok more) = ok (legs ++ more)
  append_result legs (err e) = err e

  unfoldable pub with_residual :
      List Account → String → Result (List (ResolvedLine D) × D) → Result (List (ResolvedLine D))
  with_residual accounts base (ok (legs, residual)) =
      append_result legs (residual_lines accounts base residual)
  with_residual accounts base (err e) = err e

  unfoldable pub settlement_lines :
      List Account → String → Direction → D → String → D → D → Result (List (ResolvedLine D))
  unfolding with_residual
  settlement_lines accounts base direction amount currency doc_rate pay_rate =
      with_residual accounts base (
        settlement_legs accounts direction amount currency (round 2 (mul amount pay_rate))
          (round 2 (mul amount doc_rate)))

  unfoldable pub find_item : ℕ → List (OpenItem D) → Option (OpenItem D)
  find_item id [] = none
  find_item id (i ∷ is) = if i.id == id then some i else find_item id is

  abbrev pub items_of : Direction → Store D → List (OpenItem D)
  items_of ar s = s.ar_items
  items_of ap s = s.ap_items

  -- OpenItemFXRate
  unfoldable pub open_item_fx_rate : Direction → ℕ → Store D → D
  open_item_fx_rate direction id s = elim (find_item id (items_of direction s)) [
    | none ↦ from_int 1
    | some i ↦ i.fx_rate
  ]

  -- The rate of the document and that of the day; a missing one falls back to the document's.
  unfoldable pub settlement_rates : Context → Direction → ℕ → String → Store D → D × D
  unfolding open_item_fx_rate
  settlement_rates c direction id currency s =
      let doc_rate = open_item_fx_rate direction id s in
      elim (get_rate c.base_currency currency (date_of c.now) s.rates) [
        | ok pay_rate ↦ (doc_rate, pay_rate)
        | err _ ↦ (doc_rate, doc_rate)
      ]

  -- ParsePaymentAmount, of a text that has been read as a number.
  unfoldable pub parse_payment_amount : D → Option D
  parse_payment_amount d =
      let rounded = round 2 d in if less_than_or_equal rounded nought then none else some rounded
