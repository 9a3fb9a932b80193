-- ===== src/Assets/Register.antt =====
-- Capitalisation: CreateFixedAsset of internal/repository/fixed_assets.go and RegisterFixedAsset of
-- internal/ledger/fixed_assets.go.
use iag_finance.Base.{
  ℕ, ◌+◌, ◌*◌, String, true, not, ◌&&◌, Option, none, some, List, [], ◌∷◌, if◌then◌else◌, str_eq,
  concat, is_some, ◌==◌,
}
use iag_finance.Calendar.{Date, Time, period_of_date, nanos_per_day}
use iag_finance.Decimal.{Decimal, nought, round, is_positive}
use iag_finance.Store.{
  FixedAsset, DepreciationMethod, CreateJournalParams, ResolvedLine, Context, Action,
  check_violation, unique_violation, period_closed, pure, gets, modify, raise_if, transaction,
  ◌>>=◌, ◌>>◌,
}
use iag_finance.Ledger.Booking.{next_entry_number, insert_posted_entry, assert_balanced}
use iag_finance.Ledger.Periods.{is_period_closed}
use iag_finance.Revenue.Schedules.{account_of, transfer_lines}

abbrev pub fixed_assets_code : String
fixed_assets_code = "1500"

-- repository.CreateFixedAssetInput, with the day of its in-service date.
pub record CreateFixedAssetInput (D : Type 0) : Type 0 where
  pub asset_ref : String
  pub description : String
  pub category : String
  pub cost : D
  pub salvage_value : D
  pub in_service_date : Date
  pub useful_life_months : ℕ
  pub currency : String
  pub method : DepreciationMethod
  pub declining_rate : Option D
  pub capitalize_from_account : String

module _ {D : Type 0} ⦃dec : Decimal D⦄ where
  unfoldable pub find_asset : String → List (FixedAsset D) → Option (FixedAsset D)
  find_asset ref [] = none
  find_asset ref (a ∷ as') = if str_eq a.asset_ref ref then some a else find_asset ref as'

  abbrev pub round_rate : Option D → Option D
  round_rate none = none
  round_rate (some r) = some (round 4 r)

  abbrev pub asset_row : CreateFixedAssetInput D → String → ℕ → FixedAsset D
  asset_row in' currency id = record {
    id = id;
    asset_ref = in'.asset_ref;
    description = in'.description;
    category = in'.category;
    cost = round 2 in'.cost;
    salvage_value = round 2 in'.salvage_value;
    in_service_date = in'.in_service_date;
    useful_life_months = in'.useful_life_months;
    method = in'.method;
    declining_rate = round_rate in'.declining_rate;
    accumulated_depreciation = nought;
    currency = currency;
    active = true;
  }

  -- The entries of this module have no event.
  abbrev pub asset_params :
      String → String → Time → String → List (ResolvedLine D) → CreateJournalParams D
  asset_params description service accounting_date currency lines = record {
    description = description;
    source_event_id = none;
    source_service = some service;
    correlation_id = none;
    created_by = none;
    accounting_date = some accounting_date;
    currency = currency;
    fx_rate = nought;
    lines = lines;
    counterparty_entity_id = none;
  }

module _ {D : Type 0} ⦃dec : Decimal D⦄ (c : Context) where
  -- Dr 1500 / Cr the account that the cost was booked to.
  unfoldable pub capitalize : CreateFixedAssetInput D → String → Action D (Unit {0})
  capitalize in' currency = do
    fixed ← account_of fixed_assets_code
    expense ← account_of in'.capitalize_from_account
    number ← next_entry_number
    let in_service = in'.in_service_date * nanos_per_day
    let memo = concat "Capitalize " in'.asset_ref
    let lines =
        transfer_lines fixed memo expense (concat "Reclass from " in'.capitalize_from_account)
          in'.cost
    entry ←
        insert_posted_entry c (asset_params memo "fa-capitalization" in_service currency lines)
          number in_service
    assert_balanced entry

  unfoldable pub create_asset_tx : CreateFixedAssetInput D → String → Action D (FixedAsset D)
  create_asset_tx in' currency = do
    raise_if (in'.useful_life_months == 0) check_violation
    raise_if (← gets (λ s. is_some (find_asset in'.asset_ref s.assets))) unique_violation
    id ← gets (λ s. s.next_id)
    modify
        (λ s. record s { assets = asset_row in' currency id ∷ s.assets; next_id = s.next_id + 1 })
    (if not (str_eq in'.capitalize_from_account "") && is_positive in'.cost
        then capitalize in' currency
        else pure tt)
    pure (asset_row in' currency id)

  -- CreateFixedAsset
  unfoldable pub create_fixed_asset : CreateFixedAssetInput D → Action D (FixedAsset D)
  create_fixed_asset in' =
      transaction
        (create_asset_tx in' (if str_eq in'.currency "" then c.base_currency else in'.currency))

  -- RegisterFixedAsset
  unfoldable pub register_fixed_asset : CreateFixedAssetInput D → Action D (FixedAsset D)
  register_fixed_asset in' = do
    closed ← gets (λ s. is_period_closed (period_of_date in'.in_service_date) s.periods)
    raise_if (not (str_eq in'.capitalize_from_account "") && closed) period_closed
    create_fixed_asset in'
