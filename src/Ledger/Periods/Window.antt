-- ===== src/Ledger/Periods/Window.antt =====
-- Where the posting window of an event lies.
use iag_finance.Base.{◌+◌, ◌≤◌, ◌<◌, Option, none, some, ◌≡◌, ◌⊎◌, true, false, List, arith}
use iag_finance.Calendar.{Time, period_of}
use iag_finance.Store.{FiscalPeriod, Result, ok, err, period_closed}
use iag_finance.Ledger.Periods.{
  EventRef, PostingWindow, is_period_closed, future_date_tolerance, transaction_date, choose_window,
  resolve_posting_window,
}

-- An event that states no time, or one that is more than a day ahead of the clock.
abbrev pub IsUnstated : Time → Option Time → Type 0
IsUnstated now none = Unit
IsUnstated now (some t) = now + future_date_tolerance < t

-- The date a posting is measured at: what the event states, unless that is not to be had.
abbrev pub Measured : Time → EventRef → Time → Type 0
Measured now ref t =
    ((ref.occurred_at ≡ some t) × (t ≤ now + future_date_tolerance))
    ⊎ (IsUnstated now ref.occurred_at × (t ≡ now))

-- Filed at the time of the event when its period is open, else deferred to the present.
abbrev pub Filed : Time → List FiscalPeriod → PostingWindow → Type 0
Filed now periods w =
    ((is_period_closed (period_of w.transaction_time) periods ≡ false)
      × (w.accounting ≡ w.transaction_time)
      × (w.deferred ≡ false))
    ⊎ ((is_period_closed (period_of w.transaction_time) periods ≡ true)
        × (is_period_closed (period_of now) periods ≡ false)
        × (w.accounting ≡ now)
        × (w.deferred ≡ true))

abbrev pub WindowVerdict : Time → EventRef → List FiscalPeriod → Result PostingWindow → Type 0
WindowVerdict now ref periods (ok w) =
    Measured now ref w.transaction_time
    × Filed now periods w
    × (is_period_closed (period_of w.accounting) periods ≡ false)
    × (w.accounting ≤ now + future_date_tolerance)
WindowVerdict now ref periods (err e) =
    (e ≡ period_closed) × (is_period_closed (period_of now) periods ≡ true)

pub resolve_posting_window-Verdict :
    (now : Time) (ref : EventRef) (periods : List FiscalPeriod)
    → WindowVerdict now ref periods (resolve_posting_window now ref periods)
unfolding resolve_posting_window transaction_date choose_window
resolve_posting_window-Verdict now ref periods = ground arith
