-- ===== src/Ledger/Periods/Closing.antt =====
-- Closing and opening a period.
use iag_finance.Base.{
  ℕ, ◌≡◌, ◌≢◌, refl, true, Option, none, some, List, [], ◌∷◌, if◌then◌else◌, ◌==◌, arith,
}
use iag_finance.Calendar.{Period}
use iag_finance.Store.{
  FiscalPeriod, closed_period, Store, Context, Result, ok, err, period_has_drafts,
}
use iag_finance.Ledger.Periods.{
  find_period, is_period_closed, upsert_period, count_drafts, set_period_status,
}

pub find_period-upsert :
    (p : Period) (r : FiscalPeriod) (rs : List FiscalPeriod)
    → find_period p (upsert_period r rs)
      ≡ (if r.period == p then some r.status else find_period p rs)
unfolding find_period upsert_period
find_period-upsert p r [] = refl
find_period-upsert p r (q ∷ qs) = ground (arith, find_period-upsert p r qs)

-- The whole row of a period.
unfoldable pub find_row : Period → List FiscalPeriod → Option FiscalPeriod
find_row p [] = none
find_row p (r ∷ rs) = if r.period == p then some r else find_row p rs

find_row-upsert :
    (q : Period) (r : FiscalPeriod) (rs : List FiscalPeriod)
    → find_row q (upsert_period r rs) ≡ (if r.period == q then some r else find_row q rs)
unfolding find_row upsert_period
find_row-upsert q r [] = refl
find_row-upsert q r (x ∷ xs) = ground (arith, find_row-upsert q r xs)

abbrev pub closed_row : Context → Period → Option ℕ → FiscalPeriod
closed_row c p by = record {
  period = p;
  status = closed_period;
  closed_at = some c.now;
  closed_by = by;
}

module _ {D : Type 0} (c : Context) where
  -- A period that is closed has no drafts; of the store only the row of the period changes, seen
  -- at any period `q`.
  abbrev pub ClosingVerdict :
      Period → Option ℕ → Period → Store D → Result (Unit {0}) × Store D → Type 0
  ClosingVerdict p by q s (ok _, t) =
      (is_period_closed p t.periods ≡ true)
      × (count_drafts p t.entries ≡ 0)
      × (find_row q t.periods ≡ (if p == q then some (closed_row c p by) else find_row q s.periods))
      × (t ≡ record s { periods = t.periods })
  ClosingVerdict p by q s (err e, t) =
      (e ≡ period_has_drafts) × (count_drafts p s.entries ≢ 0) × (t ≡ s)

  -- A period is closed exactly if no draft is dated in it: then it is closed afterwards, with the
  -- time and the user of the call in its row, the row of every other period is as before, and so is
  -- all else; otherwise the call fails and changes nothing.
  pub set_period_status-Closing :
      (p : Period) (by : Option ℕ) (q : Period) (s : Store D)
      → ClosingVerdict p by q s (set_period_status c p closed_period by s)
  unfolding set_period_status is_period_closed
  set_period_status-Closing p by q s = ground (
    arith,
    find_period-upsert p (closed_row c p by) s.periods,
    find_row-upsert q (closed_row c p by) s.periods,
  )
