-- ===== src/Storage/Calendar/Cycle.antt =====
-- The calendar by its rules, and the days of one cycle of 400 years by computation.
use native.Mathlib.Nat.{pow-suc}
use ll_vpn.Common.{
  ℕ, zero, suc, ◌+◌, ◌%◌, ◌^◌, ◌≤◌, ◌<◌, ◌≡◌, refl, subst, Bool, true, false, ◌&&◌, ◌||◌, ltb, ◌==◌,
  if◌then◌else◌, arith, dec_lt,
}
use ll_vpn.Storage.Calendar.{civil_date_from_days}

unfoldable pub is_leap : ℕ → Bool
is_leap y = if y % 4 == 0 then (if y % 100 == 0 then y % 400 == 0 else true) else false

unfoldable pub days_in_month : ℕ → ℕ → ℕ
unfolding is_leap
days_in_month y m =
    if m == 2
    then (if is_leap y then 29 else 28)
    else if m == 4 || m == 6 || m == 9 || m == 11
    then 30
    else 31

unfoldable pub next_day : ℕ × ℕ × ℕ → ℕ × ℕ × ℕ
unfolding days_in_month
next_day (y, m, d) =
    if ltb d (days_in_month y m)
    then (y, m, d + 1)
    else if m == 12
    then (y + 1, 1, 1)
    else (y, m + 1, 1)

date_eq : ℕ × ℕ × ℕ → ℕ × ℕ × ℕ → Bool
date_eq (y, m, d) (y', m', d') = y == y' && m == m' && d == d'

follows : ℕ → Bool
unfolding date_eq
follows n = date_eq (civil_date_from_days (n + 1)) (next_day (civil_date_from_days n))

-- The `2 ^ k` days from `n` on.
all_follow : ℕ → ℕ → Bool
unfolding follows
all_follow zero n = follows n
all_follow (suc k) n = all_follow k n && all_follow k (n + 2 ^ k)

both : (a b : Bool) → (a && b) ≡ true → (a ≡ true) × (b ≡ true)
both a b h = ground arith

all_follow-at : (k n r : ℕ) → all_follow k n ≡ true → n ≤ r → r < n + 2 ^ k → follows r ≡ true
unfolding all_follow
all_follow-at zero n r h lo hi = subst (λ (t : ℕ). follows t ≡ true) (omega arith) h
all_follow-at (suc k) n r h lo hi =
    let parts = both (all_follow k n) (all_follow k (n + 2 ^ k)) h in
    elim (dec_lt r (n + 2 ^ k)) [
      | yes below ↦ all_follow-at k n r parts.0 lo below
      | no above ↦ all_follow-at k (n + 2 ^ k) r parts.1 (omega arith) (omega (arith, pow-suc 2 k))
    ]

part_one : all_follow 14 0 ≡ true
unfolding all_follow civil_date_from_days next_day
part_one = refl

part_two : all_follow 14 16384 ≡ true
unfolding all_follow civil_date_from_days next_day
part_two = refl

part_three : all_follow 14 32768 ≡ true
unfolding all_follow civil_date_from_days next_day
part_three = refl

part_four : all_follow 14 49152 ≡ true
unfolding all_follow civil_date_from_days next_day
part_four = refl

part_five : all_follow 14 65536 ≡ true
unfolding all_follow civil_date_from_days next_day
part_five = refl

part_six : all_follow 14 81920 ≡ true
unfolding all_follow civil_date_from_days next_day
part_six = refl

part_seven : all_follow 14 98304 ≡ true
unfolding all_follow civil_date_from_days next_day
part_seven = refl

part_eight : all_follow 14 114688 ≡ true
unfolding all_follow civil_date_from_days next_day
part_eight = refl

part_nine : all_follow 14 131072 ≡ true
unfolding all_follow civil_date_from_days next_day
part_nine = refl

date_eq→≡ : (a b : ℕ × ℕ × ℕ) → date_eq a b ≡ true → a ≡ b
unfolding date_eq
date_eq→≡ (y, m, d) (y', m', d') h = ground arith

cycle-follows : (r : ℕ) → r < 146097 → follows r ≡ true
cycle-follows r h = elim (dec_lt r 16384) [
  | yes below ↦ all_follow-at 14 0 r part_one (omega arith) (omega arith)
  | no above ↦ elim (dec_lt r 32768) [
    | yes below ↦ all_follow-at 14 16384 r part_two (omega arith) (omega arith)
    | no above ↦ elim (dec_lt r 49152) [
      | yes below ↦ all_follow-at 14 32768 r part_three (omega arith) (omega arith)
      | no above ↦ elim (dec_lt r 65536) [
        | yes below ↦ all_follow-at 14 49152 r part_four (omega arith) (omega arith)
        | no above ↦ elim (dec_lt r 81920) [
          | yes below ↦ all_follow-at 14 65536 r part_five (omega arith) (omega arith)
          | no above ↦ elim (dec_lt r 98304) [
            | yes below ↦ all_follow-at 14 81920 r part_six (omega arith) (omega arith)
            | no above ↦ elim (dec_lt r 114688) [
              | yes below ↦ all_follow-at 14 98304 r part_seven (omega arith) (omega arith)
              | no above ↦ elim (dec_lt r 131072) [
                | yes below ↦ all_follow-at 14 114688 r part_eight (omega arith) (omega arith)
                | no above ↦ all_follow-at 14 131072 r part_nine (omega arith) (omega arith)
              ]
            ]
          ]
        ]
      ]
    ]
  ]
]

pub cycle-next :
    (r : ℕ) → r < 146097 → civil_date_from_days (r + 1) ≡ next_day (civil_date_from_days r)
unfolding follows
cycle-next r h = date_eq→≡ _ _ (cycle-follows r h)
