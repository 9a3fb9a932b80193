-- ===== src/Assets/Depreciation.antt =====
-- The depreciation of a period: RunDepreciation of internal/repository/fixed_assets.go and of
-- internal/ledger/fixed_assets.go.
pub mod Bounds
pub mod Again
use iag_finance.Base.{
  ℕ, ◌+◌, String, Bool, true, false, not, ◌&&◌, Option, none, some, List, [], ◌∷◌, ◌++◌,
  if◌then◌else◌, ◌==◌, leb, concat,
}
use iag_finance.Calendar.{Date, Time, Period, period_end, date_of}
use iag_finance.Decimal.{
  Decimal, nought, from_int, add, sub, mul, div, round, is_positive, greater_than,
  less_than_or_equal,
}
use iag_finance.Store.{
  FixedAsset, DepreciationEntry, DepreciationMethod, straight_line, declining_balance, Context,
  Action, period_closed, pure, gets, modify, raise_if, transaction, ◌>>=◌, ◌>>◌,
}
use iag_finance.Ledger.Booking.{next_entry_number, insert_posted_entry, assert_balanced}
use iag_finance.Ledger.Periods.{is_period_closed}
use iag_finance.Revenue.Schedules.{account_of, transfer_lines}
use iag_finance.Assets.Register.{asset_params}

abbrev pub is_declining : DepreciationMethod → Bool
is_declining declining_balance = true
is_declining straight_line = false

-- repository.DepreciationRun
pub record DepreciationRun (D : Type 0) : Type 0 where
  pub period : Period
  pub assets_depreciated : ℕ
  pub total_amount : D
  pub journal_entry_id : Option ℕ

-- What the loop over the assets has done: the assets and the new entries, the total and the count.
pub record Charges (D : Type 0) : Type 0 where
  pub assets : List (FixedAsset D)
  pub entries : List (DepreciationEntry D)
  pub total : D
  pub count : ℕ

module _ {D : Type 0} ⦃dec : Decimal D⦄ where
  unfoldable pub is_charged : ℕ → Period → List (DepreciationEntry D) → Bool
  is_charged asset p [] = false
  is_charged asset p (e ∷ es) =
      if (e.asset_id == asset) && (e.period == p) then true else is_charged asset p es

  -- An active asset in service that has no entry for the period.
  unfoldable pub is_depreciable : Period → Date → List (DepreciationEntry D) → FixedAsset D → Bool
  is_depreciable p end' done a =
      a.active && leb a.in_service_date end' && not (is_charged a.id p done)

  -- COALESCE(declining_rate, 0)
  abbrev pub rate_of : FixedAsset D → D
  rate_of a = elim a.declining_rate [ none ↦ nought | some r ↦ r ]

  unfoldable pub monthly_charge : FixedAsset D → D
  monthly_charge a =
      if is_declining a.method && is_positive (rate_of a)
      then round 2 (div (mul (sub a.cost a.accumulated_depreciation) (rate_of a)) (from_int 12))
      else round 2 (div (sub a.cost a.salvage_value) (from_int a.useful_life_months))

  abbrev pub remaining : FixedAsset D → D
  remaining a = sub (sub a.cost a.salvage_value) a.accumulated_depreciation

  abbrev pub capped : D → D → D
  capped amount limit = if greater_than amount limit then limit else amount

  -- The charge for a month, at most what remains; none if there is nothing to charge.
  unfoldable pub charge : FixedAsset D → Option D
  charge a =
      if less_than_or_equal (remaining a) nought
      then none
      else let amount = capped (monthly_charge a) (remaining a) in
        if less_than_or_equal amount nought then none else some amount

  -- The row after `amount` is added to its column of two places.
  abbrev pub accumulate : D → FixedAsset D → FixedAsset D
  accumulate amount a = record a {
    accumulated_depreciation = round 2 (add a.accumulated_depreciation amount);
  }

  abbrev pub depreciate_one : Period → FixedAsset D → Option D → Charges D → Charges D
  depreciate_one p a none rest = record rest { assets = a ∷ rest.assets }
  depreciate_one p a (some amount) rest = record {
    assets = accumulate amount a ∷ rest.assets;
    entries = record { asset_id = a.id; period = p; amount = round 2 amount } ∷ rest.entries;
    total = add amount rest.total;
    count = rest.count + 1;
  }

  -- The loop, over the rows of the table: each is the only one with its id.
  unfoldable pub depreciate :
      Period → Date → List (DepreciationEntry D) → List (FixedAsset D) → Charges D
  depreciate p end' done [] = record { assets = []; entries = []; total = nought; count = 0 }
  depreciate p end' done (a ∷ as') =
      depreciate_one p a (if is_depreciable p end' done a then charge a else none)
        (depreciate p end' done as')

module _ {D : Type 0} ⦃dec : Decimal D⦄ (c : Context) where
  -- Dr 5300 / Cr 1510 for the total.
  unfoldable pub book_depreciation : Period → String → Time → D → Action D ℕ
  book_depreciation p text posted_at total = do
    expense ← account_of "5300"
    accumulated ← account_of "1510"
    number ← next_entry_number
    let lines =
        transfer_lines expense (concat "Depreciation " text) accumulated
          (concat "Accumulated depreciation " text) total
    entry ←
        insert_posted_entry c
          (asset_params (concat "Depreciation " text) "fa-depreciation" (period_end p) "" lines)
          number posted_at
    assert_balanced entry
    pure entry

  abbrev pub book_total : Period → String → Time → D → Action D (Option ℕ)
  book_total p text posted_at total =
      if is_positive total
      then book_depreciation p text posted_at total >>= (λ entry. pure (some entry))
      else pure none

  abbrev pub write_charges : Charges D → Action D (Unit {0})
  write_charges ch =
      modify (λ s. record s { assets = ch.assets; depreciation = ch.entries ++ s.depreciation })

  unfoldable pub depreciation_tx : Period → String → Time → Action D (DepreciationRun D)
  depreciation_tx p text posted_at = do
    ch ← gets (λ s. depreciate p (date_of (period_end p)) s.depreciation s.assets)
    write_charges ch
    entry ← book_total p text posted_at ch.total
    pure (record {
      period = p;
      assets_depreciated = ch.count;
      total_amount = ch.total;
      journal_entry_id = entry;
    })

  -- RunDepreciation of the repository; `p` is also given as its text.
  unfoldable pub run_depreciation : Period → String → Time → Action D (DepreciationRun D)
  run_depreciation p text posted_at = transaction (depreciation_tx p text posted_at)

  -- RunDepreciation of the service.
  unfoldable pub run_depreciation_open : Period → String → Action D (DepreciationRun D)
  run_depreciation_open p text = do
    raise_if (← gets (λ s. is_period_closed p s.periods)) period_closed
    run_depreciation p text c.now
