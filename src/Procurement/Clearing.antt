-- ===== src/Procurement/Clearing.antt =====
-- Both sides of a purchase order, in either order.
use iag_finance.Base.{
  String, ◌≡◌, ap, Bool-cases, inl, inr, List, [], ◌∷◌, str_eq, str_eq_refl, arith,
}
use iag_finance.Decimal.{Decimal}
use iag_finance.Store.{Accrual, Store, ok, ◌>>◌}
use iag_finance.Procurement.Accruals.{
  upsert_accrual, raised, lowered, add_grni_accrual, clear_grni_accrual,
}

module _ {D : Type 0} ⦃dec : Decimal D⦄ where
  upsert_accrual-swap :
      (po currency : String) (a b q r : D) (as' : List (Accrual D))
      → upsert_accrual po currency (lowered b r) (upsert_accrual po currency (raised a q) as')
        ≡ upsert_accrual po currency (raised a q) (upsert_accrual po currency (lowered b r) as')
  unfolding upsert_accrual
  upsert_accrual-swap po currency a b q r [] = ground (arith, str_eq_refl po)
  upsert_accrual-swap po currency a b q r (x ∷ as') = elim (Bool-cases (str_eq x.po_ref po)) [
    | inl here ↦ ground (arith, here)
    | inr other ↦ ground (arith, other, upsert_accrual-swap po currency a b q r as')
  ]

  -- A goods receipt and a vendor invoice of one purchase order, in one currency, leave the same
  -- accruals in either order, whatever was accrued and cleared before: an invoice that arrives
  -- before its goods makes no difference.
  pub grni_accrual-swap :
      (po currency : String) (a b q r : D) (s : Store D)
      → (add_grni_accrual po currency a q >> clear_grni_accrual po currency b r) s
        ≡ (clear_grni_accrual po currency b r >> add_grni_accrual po currency a q) s
  unfolding add_grni_accrual clear_grni_accrual
  grni_accrual-swap po currency a b q r s =
      ap (λ (as' : List (Accrual D)). (ok tt, record s { accruals = as' }))
        (upsert_accrual-swap po currency a b q r s.accruals)
