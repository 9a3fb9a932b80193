-- ===== src/Ledger/Periods.antt =====
-- Fiscal periods (internal/repository/periods.go) and the dates of an event-driven entry
-- (internal/ledger/eventdate.go).
pub mod Window
pub mod Closing
use iag_finance.Base.{
  ℕ, ◌+◌, String, Bool, true, false, not, ◌&&◌, Option, none, some, List, [], ◌∷◌, if◌then◌else◌,
  ltb, ◌==◌,
}
use iag_finance.Calendar.{Time, Period, period_of, period_of_date, nanos_per_day}
use iag_finance.Store.{
  FiscalPeriod, PeriodStatus, open_period, closed_period, JournalEntry, EntryStatus, draft, Context,
  Action, Result, ok, err, period_closed, period_has_drafts, pure, gets, modify, raise_if, ◌>>=◌,
  ◌>>◌,
}

-- `SELECT status FROM fiscal_periods WHERE period = $1`
unfoldable pub find_period : Period → List FiscalPeriod → Option PeriodStatus
find_period p [] = none
find_period p (r ∷ rs) = if r.period == p then some r.status else find_period p rs

abbrev pub is_closed : Option PeriodStatus → Bool
is_closed (some closed_period) = true
is_closed _ = false

-- A period with no row is open.
unfoldable pub is_period_closed : Period → List FiscalPeriod → Bool
is_period_closed p periods = is_closed (find_period p periods)

-- INSERT ... ON CONFLICT (period) DO UPDATE
unfoldable pub upsert_period : FiscalPeriod → List FiscalPeriod → List FiscalPeriod
upsert_period r [] = r ∷ []
upsert_period r (q ∷ qs) = if q.period == r.period then r ∷ qs else q ∷ upsert_period r qs

abbrev pub is_draft : EntryStatus → Bool
is_draft draft = true
is_draft _ = false

-- A draft that is dated within the period.
abbrev pub is_draft_in : {D : Type 0} → Period → JournalEntry D → Bool
is_draft_in p e = is_draft e.status && (period_of_date e.accounting_date == p)

unfoldable pub count_drafts : {D : Type 0} → Period → List (JournalEntry D) → ℕ
count_drafts p [] = 0
count_drafts p (e ∷ es) = (if is_draft_in p e then 1 else 0) + count_drafts p es

module _ {D : Type 0} (c : Context) where
  unfoldable pub set_period_status : Period → PeriodStatus → Option ℕ → Action D (Unit {0})
  set_period_status p closed_period by = do
    drafts ← gets (λ s. count_drafts p s.entries)
    raise_if (ltb 0 drafts) period_has_drafts
    modify (λ s. record s {
      periods =
          upsert_period
            (record { period = p; status = closed_period; closed_at = some c.now; closed_by = by })
            s.periods;
    })
  set_period_status p open_period by = modify (λ s. record s {
    periods =
        upsert_period
          (record { period = p; status = open_period; closed_at = none; closed_by = none })
          s.periods;
  })

-- guardOpen of internal/ledger/revrec.go
unfoldable pub guard_open : {D : Type 0} → Time → Action D (Unit {0})
guard_open t = do
  raise_if (← gets (λ s. is_period_closed (period_of t) s.periods)) period_closed
  pure tt

-- ledger.EventRef; none is an envelope with no time.
pub record EventRef : Type 0 where
  pub id : String
  pub event_type : String
  pub source : String
  pub correlation_id : String
  pub occurred_at : Option Time

pub record PostingWindow : Type 0 where
  pub transaction_time : Time
  pub accounting : Time
  pub deferred : Bool

abbrev pub future_date_tolerance : ℕ
future_date_tolerance = nanos_per_day

-- The date, and whether the event's own claim was discarded.
unfoldable pub transaction_date : Option Time → Time → Time × Bool
transaction_date none now = (now, false)
transaction_date (some txn) now =
    if ltb (now + future_date_tolerance) txn then (now, true) else (txn, false)

unfoldable pub choose_window : Time → Time → Bool → Bool → Result PostingWindow
choose_window txn now txn_period_closed now_period_closed =
    if not txn_period_closed
    then ok (record { transaction_time = txn; accounting = txn; deferred = false })
    else if now_period_closed
    then err period_closed
    else ok (record { transaction_time = txn; accounting = now; deferred = true })

unfoldable pub resolve_posting_window : Time → EventRef → List FiscalPeriod → Result PostingWindow
unfolding transaction_date choose_window
resolve_posting_window now ref periods =
    let (txn, clamped) = transaction_date ref.occurred_at now in
    let txn_closed = is_period_closed (period_of txn) periods in
    let now_closed =
      if txn_closed && not (period_of txn == period_of now)
      then is_period_closed (period_of now) periods
      else txn_closed in
    choose_window txn now txn_closed now_closed
