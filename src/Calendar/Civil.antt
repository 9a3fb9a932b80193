-- ===== src/Calendar/Civil.antt =====
-- The civil calendar and its inverse: dates of a period fall in that period.
use iag_finance.Base.{
  ℕ, zero, suc, ◌≤◌, ◌<◌, ◌+◌, ◌*◌, ◌-◌, ◌/◌, ◌%◌, ◌≡◌, ◌⊎◌, inl, inr, refl, arith, leb, ltb,
  if◌then◌else◌, ◌∙◌,
}
use iag_finance.Calendar.{Period, period_of_date, first_day, period_end, period_of, date_of}

-- Days since the start of a year that begins in March, and of an era of 400 of them.
abbrev day_of_era : ℕ → ℕ → ℕ
day_of_era year day = year * 365 + year / 4 - year / 100 + day

abbrev day_of_civil : ℕ → ℕ → ℕ
day_of_civil year day = year * 365 + year / 4 - year / 100 + year / 400 + day

-- A day that the year has: the last one is 29 February.
abbrev IsDay : ℕ → ℕ → Type 0
IsDay year day =
    (day < 365) ⊎ ((day ≡ 365) × (year % 4 ≡ 3) × ((year % 100 < 99) ⊎ (year % 400 ≡ 399)))

month_of_day : (s : ℕ) → s < 12 → (5 * ((153 * s + 2) / 5) + 2) / 153 ≡ s
month_of_day s h = omega arith

year_of_day :
    (y d : ℕ)
    → y < 400
    → IsDay y d
    → let e = day_of_era y d in (e - e / 1460 + e / 36_524 - e / 146_096) / 365 ≡ y
year_of_day y d h (inl k) = omega arith
year_of_day y d h (inr (k, l, inl m)) = omega arith
year_of_day y d h (inr (k, l, inr m)) = omega arith

era : (y d : ℕ) → IsDay y d → day_of_civil y d / 146_097 ≡ y / 400
era y d (inl k) = omega arith
era y d (inr (k, l, inl m)) = omega arith
era y d (inr (k, l, inr m)) = omega arith

era_day : (y d : ℕ) → IsDay y d → day_of_civil y d % 146_097 ≡ day_of_era (y % 400) d
era_day y d (inl k) = omega arith
era_day y d (inr (k, l, inl m)) = omega arith
era_day y d (inr (k, l, inr m)) = omega arith

era-IsDay : (y d : ℕ) → IsDay y d → IsDay (y % 400) d
era-IsDay y d (inl k) = inl k
era-IsDay y d (inr (k, l, inl m)) = inr (k, omega arith, inl (omega arith))
era-IsDay y d (inr (k, l, inr m)) = inr (k, omega arith, inr (omega arith))

abbrev month_of : ℕ → ℕ
month_of shifted = if ltb shifted 10 then shifted + 2 else shifted - 10

abbrev civil : ℕ → ℕ → Period
civil year shifted = (year + (if leb (month_of shifted) 1 then 1 else 0)) * 12 + month_of shifted

period_of_date-civil :
    (y d s : ℕ)
    → IsDay y d
    → (5 * d + 2) / 153 ≡ s
    → 719_468 ≤ day_of_civil y d
    → period_of_date (day_of_civil y d - 719_468) ≡ civil y s
unfolding period_of_date
period_of_date-civil y d s day month late =
    let back : day_of_civil y d - 719_468 + 719_468 ≡ day_of_civil y d = omega arith in
    rw back (
      rw (era y d day) (
        rw (era_day y d day) (
          rw (year_of_day (y % 400) d (omega arith) (era-IsDay y d day)) (
            let doy : day_of_era (y % 400) d - (365 * (y % 400) + (y % 400) / 4 - (y % 400) / 100)
                ≡ d =
              omega arith in
            let whole : y % 400 + y / 400 * 400 ≡ y = omega arith in
            rw doy (rw month (rw whole refl))))))

abbrev month_start : ℕ → ℕ
month_start shifted = (153 * shifted + 2) / 5

-- The year and the month that `first_day` starts from.
abbrev shifted_year : Period → ℕ
shifted_year p = if leb (p % 12) 1 then p / 12 - 1 else p / 12

abbrev shifted_month : Period → ℕ
shifted_month p = if leb (p % 12) 1 then p % 12 + 10 else p % 12 - 2

abbrev IsLeap : ℕ → Type 0
IsLeap y = (y % 4 ≡ 3) × ((y % 100 < 99) ⊎ (y % 400 ≡ 399))

abbrev IsCommon : ℕ → Type 0
IsCommon y = (y % 4 < 3) ⊎ ((y % 100 ≡ 99) × (y % 400 < 399))

year_cases : (y : ℕ) → IsLeap y ⊎ IsCommon y
year_cases y = ground arith

march_eve : (y : ℕ) → IsCommon y → day_of_civil (suc y) 0 ≡ day_of_civil y 364 + 1
march_eve y (inl a) = omega arith
march_eve y (inr (a, b)) = omega arith

leap_eve : (y : ℕ) → IsLeap y → day_of_civil (suc y) 0 ≡ day_of_civil y 365 + 1
leap_eve y (a, inl b) = omega arith
leap_eve y (a, inr b) = omega arith

back_one : (a b : ℕ) → a ≡ b + 1 → a - 719_468 - 1 ≡ b - 719_468
back_one a b h = omega arith

end_of_month :
    (y s : ℕ)
    → 1970 ≤ y
    → s < 12
    → period_of_date (day_of_civil y (month_start s) - 719_468 - 1) ≡ civil y s - 1
end_of_month zero s h k = omega arith
end_of_month (suc y) zero h k = elim (year_cases y) [
  | inl leap ↦ rw (back_one (day_of_civil (suc y) 0) (day_of_civil y 365) (leap_eve y leap)) (
      rw (period_of_date-civil y 365 11 (inr (refl, leap.0, leap.1)) refl (omega arith))
        (omega arith))
  | inr common ↦
      rw (back_one (day_of_civil (suc y) 0) (day_of_civil y 364) (march_eve y common))
        (rw (period_of_date-civil y 364 11 (inl (omega arith)) refl (omega arith)) (omega arith))
]
end_of_month (suc y) (suc s) h k =
    let d = month_start (suc s) - 1 in
    rw
      (back_one (day_of_civil (suc y) (month_start (suc s))) (day_of_civil (suc y) d) (omega arith))
      (rw (period_of_date-civil (suc y) d s (inl (omega arith)) (omega arith) (omega arith)) grind
        arith)

whole_days : (d : ℕ) → d * 86_400_000_000_000 / 86_400_000_000_000 ≡ d
whole_days d = omega arith

months : (q : Period) → 23_641 ≤ q → civil (shifted_year q) (shifted_month q) - 1 ≡ q - 1
months q h = grind arith

-- The date that is computed as the end of a period, and at which its runs are posted, falls in that
-- very period, for every month from 1971 on.
pub period_end-period_of : (p : Period) → 23_652 ≤ p → period_of (period_end p) ≡ p
unfolding period_of period_end date_of first_day
period_end-period_of p h =
    let q = p + 1 in
    rw (whole_days (first_day q - 1)) (
      end_of_month (shifted_year q) (shifted_month q) (grind arith) (grind arith)
      ∙ months q (omega arith)
      ∙ omega arith)
