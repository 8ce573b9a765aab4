-- ===== src/Storage/Calendar.antt =====
-- src/storage/version.rs, the calendar behind the identifiers of versions, and their text.
pub mod Cycle
pub mod Gregorian
use ll_vpn.Common.{
  ℕ, ◌+◌, ◌-◌, ◌*◌, ◌/◌, ◌%◌, ◌≤◌, ◌<◌, ◌≡◌, refl, ap, ◌∙◌, true, false, [], ◌∷◌, ◌++◌, List, ltb,
  leb, ◌&&◌, ◌||◌, zero, suc, ◌^◌, ◌==◌, if◌then◌else◌, Bool, All, All-append, arith, Bytes,
}
use ll_vpn.Common.Decimal.{padded, padded-IsDigit, number_of, number_of-padded, IsDigit}

-- Howard Hinnant's algorithm: the year, the month and the day. The days come from a `u64` of seconds, so
-- that no intermediate result is negative.
unfoldable pub date_in_era : ℕ → ℕ → ℕ × ℕ × ℕ
date_in_era doe era =
    let yoe = (doe - doe / 1460 + doe / 36524 - doe / 146096) / 365 in
    let y = yoe + era * 400 in
    let doy = doe - (365 * yoe + yoe / 4 - yoe / 100) in
    let mp = (5 * doy + 2) / 153 in
    let d = doy - (153 * mp + 2) / 5 + 1 in
    let m = if ltb mp 10 then mp + 3 else mp - 9 in (if leb m 2 then y + 1 else y, m, d)

unfoldable pub civil_date_from_days : ℕ → ℕ × ℕ × ℕ
unfolding date_in_era
civil_date_from_days days =
    let z = days + 719468 in let era = z / 146097 in date_in_era (z - era * 146097) era

unfoldable pub format_timestamp : ℕ → Bytes
format_timestamp unix_secs =
    let time_in_day = unix_secs % 86400 in
    let date = civil_date_from_days (unix_secs / 86400) in
    padded 4 date.0
    ++ (padded 2 date.1
        ++ (padded 2 date.2
            ++ (padded 2 (time_in_day / 3600)
                ++ (padded 2 (time_in_day % 3600 / 60) ++ padded 2 (time_in_day % 60)))))

abbrev pub dash : ℕ
dash = b'-'

-- `format!("{}-{:04}", timestamp, seq)`
unfoldable pub version_id : Bytes → ℕ → Bytes
version_id timestamp seq = timestamp ++ (dash ∷ padded 4 seq)
