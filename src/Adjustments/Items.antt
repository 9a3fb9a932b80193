-- ===== src/Adjustments/Items.antt =====
-- The rows of an adjustment: adjustOpenItemAmountTx, insertAdjustmentTx, CreateAdjustment,
-- AdjustARAmount and AdjustAPAmount of internal/repository/adjustments.go, with the constraints of
-- the open items and of finance_adjustments (migrations 002 and 014), and OpenItemFXRateByDocRef of
-- internal/repository/fx.go.
use iag_finance.Base.{
  ℕ, String, Bool, true, false, not, ◌||◌, Option, none, some, List, [], ◌∷◌, if◌then◌else◌, str_eq,
  ◌==◌,
}
use iag_finance.Decimal.{
  Decimal, from_int, add, round, equal, less_than, less_than_or_equal, is_negative, is_positive,
}
use iag_finance.Store.{
  Direction, ItemStatus, open_item, partial, closed_item, OpenItem, Adjustment, Store, Action,
  Result, ok, err, original_not_found, adjustment_too_large, check_violation, unique_violation,
  pure, gets, modify, raise_if, or_raise, ◌>>=◌, ◌>>◌,
}
use iag_finance.Payments.Settlement.{items_of}
use iag_finance.Payments.Apply.{with_items}

abbrev pub is_closed_item : ItemStatus → Bool
is_closed_item closed_item = true
is_closed_item _ = false

module _ {D : Type 0} ⦃dec : Decimal D⦄ where
  -- GetARByDocumentRef and GetAPByDocumentRef
  unfoldable pub find_document : String → List (OpenItem D) → Option (OpenItem D)
  find_document ref [] = none
  find_document ref (i ∷ is) = if str_eq i.document_ref ref then some i else find_document ref is

  -- WHERE document_ref = $1 AND status != 'closed'; a document_ref is unique.
  abbrev pub unless_closed : Option (OpenItem D) → Option (OpenItem D)
  unless_closed none = none
  unless_closed (some i) = if is_closed_item i.status then none else some i

  unfoldable pub open_item_fx_rate_by_doc_ref : Direction → String → Store D → D
  open_item_fx_rate_by_doc_ref direction ref s = elim (find_document ref (items_of direction s)) [
    | none ↦ from_int 1
    | some i ↦ i.fx_rate
  ]

  -- The new amount and status, unless the amount falls below what is paid.
  unfoldable pub adjusted : OpenItem D → D → Result (D × ItemStatus)
  adjusted i delta =
      let new_amount = add i.amount delta in
      if is_negative new_amount || less_than new_amount i.amount_paid
      then err adjustment_too_large
      else ok (
        new_amount,
        if equal new_amount i.amount_paid
            then closed_item
            else if is_positive i.amount_paid
            then partial
            else open_item,
      )

  -- UPDATE ... SET amount, status WHERE document_ref = $1, of the one row with that reference.
  unfoldable pub set_amount : String → D → ItemStatus → List (OpenItem D) → List (OpenItem D)
  set_amount ref amount status [] = []
  set_amount ref amount status (i ∷ is) =
      if str_eq i.document_ref ref
      then record i { amount = round 2 amount; status = status } ∷ is
      else i ∷ set_amount ref amount status is

  -- The row is written, if its amount is positive.
  unfoldable pub write_amount : Direction → String → Result (D × ItemStatus) → Action D (Unit {0})
  write_amount direction ref (err e) = λ s. (err e, s)
  write_amount direction ref (ok (amount, status)) = do
    raise_if (not (is_positive (round 2 amount))) check_violation
    modify (λ s. with_items direction (set_amount ref amount status (items_of direction s)) s)

  unfoldable pub adjust_open_item_amount : Direction → String → D → Action D (Unit {0})
  adjust_open_item_amount direction ref delta = do
    i ←
        or_raise (← gets (λ s. unless_closed (find_document ref (items_of direction s))))
          original_not_found
    write_amount direction ref (adjusted i delta)

  -- A clash on the document_ref of finance_adjustments.
  unfoldable pub note_taken : String → List (Adjustment D) → Bool
  note_taken ref [] = false
  note_taken ref (a ∷ as') = if str_eq a.document_ref ref then true else note_taken ref as'

  -- insertAdjustmentTx and CreateAdjustment
  unfoldable pub insert_adjustment : Adjustment D → Action D (Adjustment D)
  insert_adjustment a = do
    raise_if (not (is_positive (round 2 a.amount))) check_violation
    raise_if (← gets (λ s. note_taken a.document_ref s.adjustments)) unique_violation
    modify (λ s. record s { adjustments = record a { amount = round 2 a.amount } ∷ s.adjustments })
    pure (record a { amount = round 2 a.amount })

  -- getAdjustmentByJournalEntryID
  unfoldable pub adjustment_by_entry : ℕ → List (Adjustment D) → Option (Adjustment D)
  adjustment_by_entry entry [] = none
  adjustment_by_entry entry (a ∷ as') =
      if a.journal_entry_id == entry then some a else adjustment_by_entry entry as'

  -- The CASE of AdjustARAmount, which has no floor.
  unfoldable pub unfloored : OpenItem D → D → D × ItemStatus
  unfloored i delta =
      let new_amount = add i.amount delta in
      (
        new_amount,
        if less_than_or_equal new_amount i.amount_paid
            then closed_item
            else if is_positive i.amount_paid
            then partial
            else i.status,
      )

  -- AdjustARAmount and AdjustAPAmount
  unfoldable pub adjust_amount : Direction → String → D → Action D (Unit {0})
  adjust_amount direction ref delta = do
    i ←
        or_raise (← gets (λ s. unless_closed (find_document ref (items_of direction s))))
          original_not_found
    write_amount direction ref (ok (unfloored i delta))
