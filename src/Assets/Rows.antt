-- ===== src/Assets/Rows.antt =====
-- The rows and the lines of an impairment or a revaluation:
-- internal/repository/fixed_assets_ias16.go.
use iag_finance.Base.{ℕ, String, none, some, List, [], ◌∷◌, ◌++◌, if◌then◌else◌, concat, ◌==◌}
use iag_finance.Calendar.{Time}
use iag_finance.Decimal.{Decimal, nought, add, sub, neg, round, is_positive, is_negative, less_than}
use iag_finance.Store.{
  FixedAsset, Impairment, Revaluation, CreateJournalParams, ResolvedLine, Store, Action,
  asset_not_found, gets, or_raise, ◌>>=◌,
}
use iag_finance.Assets.Lines.{DisposalLine, line_if}
use iag_finance.Assets.Register.{find_asset}

module _ {D : Type 0} ⦃dec : Decimal D⦄ where
  -- UPDATE fa_assets SET ... WHERE id = $1
  unfoldable pub update_asset :
      ℕ → (FixedAsset D → FixedAsset D) → List (FixedAsset D) → List (FixedAsset D)
  update_asset id f [] = []
  update_asset id f (a ∷ as') = (if a.id == id then f a else a) ∷ update_asset id f as'

  -- lockAsset
  unfoldable pub lock_asset : String → Action D (FixedAsset D)
  lock_asset ref = do found ← gets (λ s. find_asset ref s.assets); or_raise found asset_not_found

  abbrev pub net_book_value : FixedAsset D → D
  net_book_value a = sub a.cost a.accumulated_depreciation

  abbrev pub impairment_lines : String → D → List (DisposalLine D)
  impairment_lines ref loss =
      ("5310", loss, nought, concat "Impairment loss " ref)
      ∷ ("1510", nought, loss, concat "Impairment write-down " ref)
      ∷ []

  abbrev pub reversal_lines : String → D → List (DisposalLine D)
  reversal_lines ref amount =
      ("1510", amount, nought, concat "Impairment reversal " ref)
      ∷ ("5310", nought, amount, concat "Impairment reversal income " ref)
      ∷ []

  -- SUM(surplus_delta) of an asset.
  unfoldable pub surplus_of : ℕ → List (Revaluation D) → D
  surplus_of id [] = nought
  surplus_of id (r ∷ rs) =
      if r.asset_id == id then add r.surplus_delta (surplus_of id rs) else surplus_of id rs

  -- What a decrease takes out of the surplus.
  unfoldable pub from_surplus : D → D → D
  from_surplus down surplus =
      let held = if is_negative surplus then nought else surplus in
      if less_than held down then held else down

  -- The lines of a decrease: the surplus first, the rest to expense.
  unfoldable pub decrease_lines : String → D → D → List (DisposalLine D)
  decrease_lines ref down released =
      line_if (is_positive released)
        ("3100", released, nought, concat "Revaluation surplus release " ref)
      ++ (line_if (is_positive (sub down released))
            ("5310", sub down released, nought, concat "Revaluation decrease " ref)
          ++ (("1500", nought, down, concat "Revaluation decrease " ref) ∷ []))

  unfoldable pub revaluation_lines : String → D → D → List (DisposalLine D)
  revaluation_lines ref delta surplus =
      if is_positive delta
      then ("1500", delta, nought, concat "Revaluation increase " ref)
        ∷ ("3100", nought, delta, concat "Revaluation surplus " ref)
        ∷ []
      else decrease_lines ref (neg delta) (from_surplus (neg delta) surplus)

  -- The column of two places after `delta` is added to it.
  abbrev pub restate_cost : D → FixedAsset D → FixedAsset D
  restate_cost delta a = record a { cost = round 2 (add a.cost delta) }

  abbrev pub add_impairment : Impairment D → Store D → Store D
  add_impairment i s = record s { impairments = i ∷ s.impairments }

  abbrev pub add_revaluation : Revaluation D → Store D → Store D
  add_revaluation r s = record s { revaluations = r ∷ s.revaluations }

  abbrev pub adjustment_params :
      String → String → Time → List (ResolvedLine D) → CreateJournalParams D
  adjustment_params event_id description effective lines = record {
    description = description;
    source_event_id = some event_id;
    source_service = some "iag.finance";
    correlation_id = none;
    created_by = none;
    accounting_date = some effective;
    currency = "";
    fx_rate = nought;
    lines = lines;
    counterparty_entity_id = none;
  }
