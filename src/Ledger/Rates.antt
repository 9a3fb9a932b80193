-- ===== src/Ledger/Rates.antt =====
-- Exchange rates: internal/repository/fx.go.
use iag_finance.Base.{
  String, ◌&&◌, ◌||◌, Option, none, some, List, [], ◌∷◌, if◌then◌else◌, str_eq, leb, ltb,
}
use iag_finance.Calendar.{Date}
use iag_finance.Decimal.{Decimal, from_int}
use iag_finance.Store.{ExchangeRate, Result, ok, err, no_rate}

-- The later of two rates that a query orders by as_of_date.
abbrev pub later : {D : Type 0} → ExchangeRate D → Option (ExchangeRate D) → ExchangeRate D
later r none = r
later r (some q) = if ltb r.as_of_date q.as_of_date then q else r

-- WHERE currency = $1 AND base_currency = $2 AND as_of_date <= $3 ORDER BY as_of_date DESC LIMIT 1
unfoldable pub latest_rate :
    {D : Type 0} → String → String → Date → List (ExchangeRate D) → Option (ExchangeRate D)
latest_rate currency base as_of [] = none
latest_rate currency base as_of (r ∷ rs) =
    let rest = latest_rate currency base as_of rs in
    if str_eq r.currency currency && str_eq r.base_currency base && leb r.as_of_date as_of
    then some (later r rest)
    else rest

module _ {D : Type 0} ⦃dec : Decimal D⦄ where
  unfoldable pub get_rate : String → String → Date → List (ExchangeRate D) → Result D
  get_rate base currency as_of rates =
      if str_eq currency "" || str_eq currency base
      then ok (from_int 1)
      else elim (latest_rate currency base as_of rates) [ none ↦ err no_rate | some r ↦ ok r.rate ]

  unfoldable pub rate_or_one : String → String → Date → List (ExchangeRate D) → D
  unfolding get_rate
  rate_or_one base currency as_of rates = elim (get_rate base currency as_of rates) [
    | ok r ↦ r
    | err _ ↦ from_int 1
  ]

  -- INSERT ... ON CONFLICT (currency, base_currency, as_of_date) DO UPDATE SET rate
  unfoldable pub upsert_rate : ExchangeRate D → List (ExchangeRate D) → List (ExchangeRate D)
  upsert_rate r [] = r ∷ []
  upsert_rate r (q ∷ qs) =
      if str_eq q.currency r.currency
        && str_eq q.base_currency r.base_currency
        && (leb q.as_of_date r.as_of_date && leb r.as_of_date q.as_of_date)
      then record q { rate = r.rate } ∷ qs
      else q ∷ upsert_rate r qs
