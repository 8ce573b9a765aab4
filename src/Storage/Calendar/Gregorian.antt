-- ===== src/Storage/Calendar/Gregorian.antt =====
-- src/storage/version.rs, `civil_date_from_days`, against the calendar by its rules.
use ll_vpn.Common.{
  ℕ, ◌+◌, ◌-◌, ◌*◌, ◌/◌, ◌%◌, ◌≡◌, refl, ap, ◌∙◌, sym, Bool, true, false, if◌then◌else◌, leb, ltb,
  arith,
}
use ll_vpn.Storage.Calendar.{civil_date_from_days, date_in_era}
use ll_vpn.Storage.Calendar.Cycle.{is_leap, days_in_month, next_day, cycle-next}

abbrev later : ℕ → ℕ × ℕ × ℕ → ℕ × ℕ × ℕ
later q (y, m, d) = (y + q * 400, m, d)

-- The branch on the month does not see which era it is.
later_branch :
    (b : Bool) (y e q m d : ℕ)
    → (if b then y + (e + q) * 400 + 1 else y + (e + q) * 400, m, d)
      ≡ later q (if b then y + e * 400 + 1 else y + e * 400, m, d)
later_branch true y e q m d = ap (λ (t : ℕ). (t, m, d)) (omega arith)
later_branch false y e q m d = ap (λ (t : ℕ). (t, m, d)) (omega arith)

date_in_era-later : (doe e q : ℕ) → date_in_era doe (e + q) ≡ later q (date_in_era doe e)
unfolding date_in_era
date_in_era-later doe e q =
    let yoe = (doe - doe / 1460 + doe / 36524 - doe / 146096) / 365 in
    let doy = doe - (365 * yoe + yoe / 4 - yoe / 100) in
    let mp = (5 * doy + 2) / 153 in
    let m = if ltb mp 10 then mp + 3 else mp - 9 in
    later_branch (leb m 2) yoe e q m (doy - (153 * mp + 2) / 5 + 1)

civil-later : (r q : ℕ) → civil_date_from_days (r + q * 146097) ≡ later q (civil_date_from_days r)
unfolding civil_date_from_days
civil-later r q =
    let z = r + 719468 in
    let high : (r + q * 146097 + 719468) / 146097 ≡ z / 146097 + q = omega arith in
    let low : r + q * 146097 + 719468 - (z / 146097 + q) * 146097 ≡ z - z / 146097 * 146097 =
      omega arith in
    rw (high, low) (date_in_era-later (z - z / 146097 * 146097) (z / 146097) q)

is_leap-later : (y q : ℕ) → is_leap (y + q * 400) ≡ is_leap y
unfolding is_leap
is_leap-later y q =
    let by_four : (y + q * 400) % 4 ≡ y % 4 = omega arith in
    let by_hundred : (y + q * 400) % 100 ≡ y % 100 = omega arith in
    let by_four_hundred : (y + q * 400) % 400 ≡ y % 400 = omega arith in
    rw (by_four, by_hundred, by_four_hundred)

days_in_month-later : (y q m : ℕ) → days_in_month (y + q * 400) m ≡ days_in_month y m
unfolding days_in_month
days_in_month-later y q m = rw (is_leap-later y q)

next_day-later : (q : ℕ) (date : ℕ × ℕ × ℕ) → next_day (later q date) ≡ later q (next_day date)
unfolding next_day
next_day-later q (y, m, d) = rw (days_in_month-later y q m) (ground arith)

civil_next : (n : ℕ) → civil_date_from_days (n + 1) ≡ next_day (civil_date_from_days n)
civil_next n =
    let r = n % 146097 in
    let q = n / 146097 in
    let split : r + q * 146097 ≡ n = omega arith in
    let split_next : r + 1 + q * 146097 ≡ n + 1 = omega arith in
    ap civil_date_from_days (sym split_next)
    ∙ civil-later (r + 1) q
    ∙ ap (later q) (cycle-next r (omega arith))
    ∙ sym (next_day-later q (civil_date_from_days r))
    ∙ ap next_day (sym (civil-later r q) ∙ ap civil_date_from_days split)

-- The date of a day is the date after that of the day before it, by the rules of the Gregorian
-- calendar: 12 months of their lengths, and a leap year every fourth year but for centuries that 400
-- does not divide. Day 0 is the first of January 1970.
pub civil_date-Gregorian :
    (civil_date_from_days 0 ≡ (1970, 1, 1))
    × ((n : ℕ) → civil_date_from_days (n + 1) ≡ next_day (civil_date_from_days n))
civil_date-Gregorian = (unfold civil_date_from_days in refl, λ n. civil_next n)
