-- ===== src/Common/Decimal.antt =====
-- `format!("{}")` and `format!("{:0w}")` of unsigned numbers, and the number that such a text stands for.
use mathlib.Core.Path.{◌≡◌, refl, ◌∙◌}
use mathlib.Core.List.{[], ◌∷◌, ◌++◌}
use Prim.Native.Nat.{ℕ, zero, suc, ◌+◌, ◌-◌, ◌*◌, ◌/◌, ◌%◌, ◌^◌, ◌≤◌, ◌<◌}
use native.Mathlib.Omega.{arith}
use native.Mathlib.Nat.{pow-suc}
use ll_vpn.Common.Tests.{ltb, if◌then◌else◌, if_cases, ltb→lt}
use ll_vpn.Common.Lists.{length, All, replicate}
use ll_vpn.Common.Words.{Bytes, All-append}

-- The digits of a number of at most `fuel` digits; 20 are enough for 64 bits.
unfoldable pub digits : ℕ → ℕ → Bytes
digits zero n = []
digits (suc fuel) n =
    let rest = digits fuel (n / 10) in
    if ltb n 10 then (48 + n) ∷ [] else rest ++ ((48 + n % 10) ∷ [])

unfoldable pub decimal : ℕ → Bytes
unfolding digits
decimal n = digits 20 n

unfoldable pub padded : ℕ → ℕ → Bytes
padded width n = replicate (width - length (decimal n)) 48 ++ decimal n

-- The number that digits stand for, after those that stand for `acc`.
unfoldable pub number_onto : ℕ → Bytes → ℕ
number_onto acc [] = acc
number_onto acc (d ∷ ds) = number_onto (acc * 10 + (d - 48)) ds

unfoldable pub number_of : Bytes → ℕ
unfolding number_onto
number_of ds = number_onto 0 ds

abbrev pub IsDigit : ℕ → Type 0
IsDigit d = (48 ≤ d) × (d < 58)

number_onto-append :
    (acc : ℕ) (xs ys : Bytes) → number_onto acc (xs ++ ys) ≡ number_onto (number_onto acc xs) ys
unfolding number_onto
number_onto-append acc [] ys = refl
number_onto-append acc (x ∷ xs) ys = number_onto-append (acc * 10 + (x - 48)) xs ys

number_onto-digits : (fuel n : ℕ) → n < 10 ^ fuel → number_onto 0 (digits fuel n) ≡ n
unfolding number_onto digits
number_onto-digits zero n h = omega arith
number_onto-digits (suc fuel) n h =
    if_cases (λ (t : Bytes). number_onto 0 t ≡ n) (ltb n 10) ((48 + n) ∷ [])
      (digits fuel (n / 10) ++ ((48 + n % 10) ∷ [])) (λ lt. omega arith)
      (λ ge.
        number_onto-append 0 (digits fuel (n / 10)) ((48 + n % 10) ∷ [])
        ∙ omega (arith, number_onto-digits fuel (n / 10) (omega (arith, pow-suc 10 fuel))))

number_onto-zeros : (k : ℕ) (ds : Bytes) → number_onto 0 (replicate k 48 ++ ds) ≡ number_onto 0 ds
unfolding number_onto
number_onto-zeros zero ds = refl
number_onto-zeros (suc k) ds = number_onto-zeros k ds

pub number_of-padded : (width n : ℕ) → n < 10 ^ 20 → number_of (padded width n) ≡ n
unfolding number_of padded decimal
number_of-padded width n h =
    number_onto-zeros (width - length (digits 20 n)) (digits 20 n) ∙ number_onto-digits 20 n h

digits-IsDigit : (fuel n : ℕ) → All IsDigit (digits fuel n)
unfolding digits
digits-IsDigit zero n = tt
digits-IsDigit (suc fuel) n =
    if_cases (All IsDigit) (ltb n 10) ((48 + n) ∷ []) (digits fuel (n / 10) ++ ((48 + n % 10) ∷ []))
      (λ lt. ((omega arith, omega (arith, ltb→lt n 10 lt)), tt))
      (λ ge.
        All-append IsDigit (digits fuel (n / 10)) _ (digits-IsDigit fuel (n / 10))
          ((omega arith, omega arith), tt))

zeros-IsDigit : (k : ℕ) → All IsDigit (replicate k 48)
zeros-IsDigit zero = tt
zeros-IsDigit (suc k) = ((omega arith, omega arith), zeros-IsDigit k)

pub padded-IsDigit : (width n : ℕ) → All IsDigit (padded width n)
unfolding padded decimal
padded-IsDigit width n =
    All-append IsDigit (replicate (width - length (digits 20 n)) 48) _
      (zeros-IsDigit (width - length (digits 20 n))) (digits-IsDigit 20 n)
