-- ===== src/Procurement/Accruals.antt =====
-- The accruals of purchase orders: internal/repository/grni.go, and GetTaxCode of
-- internal/repository/tax.go.
use iag_finance.Base.{String, Bool, ◌&&◌, Option, none, some, List, [], ◌∷◌, if◌then◌else◌, str_eq}
use iag_finance.Decimal.{Decimal, nought, add, sub, round}
use iag_finance.Store.{Accrual, match_open, TaxCode, Action, modify}

module _ {D : Type 0} ⦃dec : Decimal D⦄ where
  unfoldable pub find_accrual : String → List (Accrual D) → Option (Accrual D)
  find_accrual po [] = none
  find_accrual po (a ∷ as') = if str_eq a.po_ref po then some a else find_accrual po as'

  abbrev pub open_of : Option (Accrual D) → D × String
  open_of none = (nought, "")
  open_of (some a) = (sub a.accrued a.cleared, a.currency)

  -- GRNIAccrualOpen
  unfoldable pub grni_accrual_open : String → List (Accrual D) → D × String
  grni_accrual_open po as' = open_of (find_accrual po as')

  abbrev pub raised : D → D → Accrual D → Accrual D
  raised amount quantity a = record a {
    accrued = round 2 (add a.accrued (round 2 amount));
    qty_received = round 4 (add a.qty_received (round 4 quantity));
  }

  abbrev pub lowered : D → D → Accrual D → Accrual D
  lowered amount quantity a = record a {
    cleared = round 2 (add a.cleared (round 2 amount));
    qty_invoiced = round 4 (add a.qty_invoiced (round 4 quantity));
  }

  -- The row that an upsert starts from, with the defaults of its columns.
  abbrev pub new_accrual : String → String → Accrual D
  new_accrual po currency = record {
    po_ref = po;
    currency = currency;
    accrued = nought;
    cleared = nought;
    qty_received = nought;
    qty_invoiced = nought;
    match_status = match_open;
  }

  -- INSERT ... ON CONFLICT (po_ref) DO UPDATE
  unfoldable pub upsert_accrual :
      String → String → (Accrual D → Accrual D) → List (Accrual D) → List (Accrual D)
  upsert_accrual po currency change [] = change (new_accrual po currency) ∷ []
  upsert_accrual po currency change (a ∷ as') =
      if str_eq a.po_ref po then change a ∷ as' else a ∷ upsert_accrual po currency change as'

  -- AddGRNIAccrualTx
  unfoldable pub add_grni_accrual : String → String → D → D → Action D (Unit {0})
  add_grni_accrual po currency amount quantity =
      modify (λ s. record s {
        accruals = upsert_accrual po currency (raised amount quantity) s.accruals;
      })

  -- ClearGRNIAccrualTx
  unfoldable pub clear_grni_accrual : String → String → D → D → Action D (Unit {0})
  clear_grni_accrual po currency amount quantity =
      modify (λ s. record s {
        accruals = upsert_accrual po currency (lowered amount quantity) s.accruals;
      })

  -- GetTaxCode: the rate, and whether it is a reverse charge.
  unfoldable pub get_tax_code : String → List (TaxCode D) → Option (D × Bool)
  get_tax_code code [] = none
  get_tax_code code (t ∷ ts) =
      if str_eq t.code code && t.active
      then some (t.rate, t.reverse_charge)
      else get_tax_code code ts
