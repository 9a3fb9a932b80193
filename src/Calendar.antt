-- ===== src/Calendar.antt =====
-- Times as nanoseconds since 1970-01-01 UTC, dates as days and fiscal periods as months since then:
-- what the service uses of Go's `time` package and of Postgres's `to_char(date, 'YYYY-MM')`.
-- A period 'YYYY-MM' is the number YYYY * 12 + MM - 1, which orders periods as their text does.
pub mod Civil
use iag_finance.Base.{ℕ, ◌+◌, ◌-◌, ◌*◌, ◌/◌, ◌%◌, ltb, leb, if◌then◌else◌}

abbrev pub Time : Type 0
Time = ℕ

abbrev pub Date : Type 0
Date = ℕ

abbrev pub Period : Type 0
Period = ℕ

abbrev pub nanos_per_day : ℕ
nanos_per_day = 86_400_000_000_000

-- `t::date` of a timestamp in UTC.
unfoldable pub date_of : Time → Date
date_of t = t / nanos_per_day

-- The civil calendar, by eras of 400 years from 0000-03-01.
unfoldable pub period_of_date : Date → Period
period_of_date d =
    let z = d + 719_468 in
    let era = z / 146_097 in
    let day = z % 146_097 in
    let year = (day - day / 1460 + day / 36_524 - day / 146_096) / 365 in
    let day_of_year = day - (365 * year + year / 4 - year / 100) in
    let shifted = (5 * day_of_year + 2) / 153 in
    let month = if ltb shifted 10 then shifted + 2 else shifted - 10 in
    (year + era * 400 + (if leb month 1 then 1 else 0)) * 12 + month

-- `t.Format("2006-01")`
unfoldable pub period_of : Time → Period
unfolding date_of period_of_date
period_of t = period_of_date (date_of t)

-- `t.AddDate(0, n, 0)` on the first of a month.
abbrev pub add_months : Period → ℕ → Period
add_months p n = p + n

-- `t.Truncate(time.Microsecond)`
unfoldable pub truncate_micro : Time → Time
truncate_micro t = t / 1000 * 1000

abbrev pub year_of : Period → ℕ
year_of p = p / 12

-- The first day of a period, which the era arithmetic of `period_of_date` turns back.
unfoldable pub first_day : Period → Date
first_day p =
    let month = p % 12 in
    let year = if leb month 1 then p / 12 - 1 else p / 12 in
    let shifted = if leb month 1 then month + 10 else month - 2 in
    year * 365 + year / 4 - year / 100 + year / 400 + (153 * shifted + 2) / 5 - 719_468

-- `t.AddDate(0, 1, -1)` of the first of a month, at midnight.
unfoldable pub period_end : Period → Time
unfolding first_day
period_end p = (first_day (add_months p 1) - 1) * nanos_per_day
