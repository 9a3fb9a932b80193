-- ===== src/Store/Assets.antt =====
-- Rows of the leases, of the register of fixed assets and of what is charged for them.
use iag_finance.Base.{ℕ, String, Bool, Option}
use iag_finance.Calendar.{Date, Period}

-- repository.Lease
pub record Lease (D : Type 0) : Type 0 where
  pub id : ℕ
  pub lease_ref : String
  pub entity_id : ℕ
  pub description : String
  pub currency : String
  pub monthly_payment : D
  pub annual_rate : D
  pub term_months : ℕ
  pub start_period : Period
  pub rou_asset : D
  pub initial_liability : D
  pub completed : Bool
  pub recognize_entry_id : ℕ

-- A row of lease_schedule_lines.
pub record LeaseLine (D : Type 0) : Type 0 where
  pub id : ℕ
  pub lease_id : ℕ
  pub period : Period
  pub opening_liability : D
  pub interest : D
  pub payment : D
  pub principal : D
  pub closing_liability : D
  pub depreciation : D
  pub journal_entry_id : Option ℕ

pub data DepreciationMethod : Type 0 where
  straight_line declining_balance : DepreciationMethod

-- repository.FixedAsset, a row of fa_assets; `declining_rate` is none where the column is NULL.
pub record FixedAsset (D : Type 0) : Type 0 where
  pub id : ℕ
  pub asset_ref : String
  pub description : String
  pub category : String
  pub cost : D
  pub salvage_value : D
  pub in_service_date : Date
  pub useful_life_months : ℕ
  pub method : DepreciationMethod
  pub declining_rate : Option D
  pub accumulated_depreciation : D
  pub currency : String
  pub active : Bool

-- A row of fa_depreciation_entries.
pub record DepreciationEntry (D : Type 0) : Type 0 where
  pub asset_id : ℕ
  pub period : Period
  pub amount : D

-- A row of fa_impairments; a reversal carries its amount as a negative loss.
pub record Impairment (D : Type 0) : Type 0 where
  pub asset_id : ℕ
  pub effective_date : Date
  pub recoverable_amount : D
  pub impairment_loss : D
  pub is_reversal : Bool

-- A row of fa_revaluations.
pub record Revaluation (D : Type 0) : Type 0 where
  pub asset_id : ℕ
  pub effective_date : Date
  pub new_carrying_amount : D
  pub surplus_delta : D
