-- ===== src/Common/Bits.antt =====
-- Exclusive or on bytes, digit by digit.
use Prim.Native.Nat.{
  ℕ, zero, suc, ◌+◌, ◌*◌, ◌/◌, ◌%◌, ◌^◌, ◌≤◌, ◌<◌, bit_xor, bit_xor-bitwise, digits, differ,
}
use mathlib.Core.Path.{◌≡◌, refl, ap, ◌∙◌}
use mathlib.Core.List.{List, [], ◌∷◌}
use native.Mathlib.Nat.{add-mul, mul_assoc, pow-succ', pow-suc}
use native.Mathlib.Omega.{arith}
use ll_vpn.Common.Lists.{length}
use ll_vpn.Common.Tests.{◌==◌, if◌then◌else◌}

abbrev xor_digits : ℕ → ℕ → ℕ → ℕ
xor_digits n a b = digits (λ b. b) differ n a b

xor_digits_fuel : (n m a b : ℕ) → a ≤ n → a ≤ m → xor_digits n a b ≡ xor_digits m a b
xor_digits_fuel zero zero a b p q = refl
xor_digits_fuel zero (suc m) zero b p q = refl
xor_digits_fuel zero (suc m) (suc a) b p q = absurd (omega arith)
xor_digits_fuel (suc n) zero zero b p q = refl
xor_digits_fuel (suc n) zero (suc a) b p q = absurd (omega arith)
xor_digits_fuel (suc n) (suc m) zero b p q = refl
xor_digits_fuel (suc n) (suc m) (suc a) b p q =
    omega (arith, xor_digits_fuel n m (suc a / 2) (b / 2) (omega arith) (omega arith))

-- 1 where two digits differ.
abbrev pub flag : ℕ → ℕ → ℕ
flag p q = if p == q then 0 else 1

differ-flag : (p q : ℕ) → p < 2 → q < 2 → differ p q ≡ flag p q
differ-flag zero zero h k = refl
differ-flag zero (suc zero) h k = refl
differ-flag zero (suc (suc q)) h k = absurd (omega arith)
differ-flag (suc zero) zero h k = refl
differ-flag (suc zero) (suc zero) h k = refl
differ-flag (suc zero) (suc (suc q)) h k = absurd (omega arith)
differ-flag (suc (suc p)) q h k = absurd (omega arith)

zero-bit_xor : (b : ℕ) → bit_xor 0 b ≡ b
zero-bit_xor b = bit_xor-bitwise 0 b

differ_step : (a b : ℕ) → bit_xor a b ≡ bit_xor (a / 2) (b / 2) * 2 + differ (a % 2) (b % 2)
differ_step zero b = zero-bit_xor b ∙ omega (arith, zero-bit_xor (b / 2))
differ_step (suc a) b = omega (
  arith,
  bit_xor-bitwise (suc a) b,
  bit_xor-bitwise (suc a / 2) (b / 2),
  xor_digits_fuel a (suc a / 2) (suc a / 2) (b / 2) (omega arith) (omega arith),
)

-- The lowest digit of an exclusive or, and the rest of it.
pub bit_xor_step : (a b : ℕ) → bit_xor a b ≡ bit_xor (a / 2) (b / 2) * 2 + flag (a % 2) (b % 2)
bit_xor_step a b =
    differ_step a b
    ∙ ap (λ (t : ℕ). bit_xor (a / 2) (b / 2) * 2 + t)
        (differ-flag (a % 2) (b % 2) (omega arith) (omega arith))

-- The eight digits of a byte, the high one first.
abbrev pub bits8 : ℕ → List ℕ
bits8 a =
    (a / 2 / 2 / 2 / 2 / 2 / 2 / 2 % 2)
    ∷ (a / 2 / 2 / 2 / 2 / 2 / 2 % 2)
    ∷ (a / 2 / 2 / 2 / 2 / 2 % 2)
    ∷ (a / 2 / 2 / 2 / 2 % 2)
    ∷ (a / 2 / 2 / 2 % 2)
    ∷ (a / 2 / 2 % 2)
    ∷ (a / 2 % 2)
    ∷ (a % 2)
    ∷ []

-- How many entries two lists share at their front.
unfoldable pub common_prefix : List ℕ → List ℕ → ℕ
common_prefix [] ys = 0
common_prefix (x ∷ xs) [] = 0
common_prefix (x ∷ xs) (y ∷ ys) = let rest = common_prefix xs ys in if x == y then suc rest else 0

-- An exclusive or of bytes from the flags of its digits.
abbrev pub weigh : List ℕ → List ℕ → ℕ → ℕ
weigh [] ys acc = acc
weigh (x ∷ xs) [] acc = acc
weigh (x ∷ xs) (y ∷ ys) acc = weigh xs ys (acc * 2 + flag x y)

high : (a : ℕ) → a < 256 → a / 2 / 2 / 2 / 2 / 2 / 2 / 2 / 2 ≡ 0
high a h = omega arith

pub bit_xor-weigh : (a b : ℕ) → a < 256 → b < 256 → bit_xor a b ≡ weigh (bits8 a) (bits8 b) 0
bit_xor-weigh a b h k =
    let top : bit_xor (a / 2 / 2 / 2 / 2 / 2 / 2 / 2 / 2) (b / 2 / 2 / 2 / 2 / 2 / 2 / 2 / 2) ≡ 0 =
      rw (high a h, high b k) (zero-bit_xor 0) in
    omega (
      arith,
      top,
      bit_xor_step a b,
      bit_xor_step (a / 2) (b / 2),
      bit_xor_step (a / 2 / 2) (b / 2 / 2),
      bit_xor_step (a / 2 / 2 / 2) (b / 2 / 2 / 2),
      bit_xor_step (a / 2 / 2 / 2 / 2) (b / 2 / 2 / 2 / 2),
      bit_xor_step (a / 2 / 2 / 2 / 2 / 2) (b / 2 / 2 / 2 / 2 / 2),
      bit_xor_step (a / 2 / 2 / 2 / 2 / 2 / 2) (b / 2 / 2 / 2 / 2 / 2 / 2),
      bit_xor_step (a / 2 / 2 / 2 / 2 / 2 / 2 / 2) (b / 2 / 2 / 2 / 2 / 2 / 2 / 2),
    )

weigh_split :
    (l r : List ℕ) (acc : ℕ)
    → length l ≡ length r
    → weigh l r acc ≡ acc * 2 ^ length l + weigh l r 0
weigh_split [] r acc h = omega arith
weigh_split (x ∷ l) [] acc h = absurd (omega arith)
weigh_split (x ∷ l) (y ∷ r) acc h =
    let n : length l ≡ length r = omega arith in
    weigh_split l r (acc * 2 + flag x y) n
    ∙ omega (
      arith,
      add-mul (acc * 2) (flag x y) (2 ^ length l),
      mul_assoc acc 2 (2 ^ length l),
      ap (λ (t : ℕ). acc * t) (pow-succ' 2 (length l)),
      weigh_split l r (0 * 2 + flag x y) n,
    )

-- The flag of the first digits of both weighs as much as all the digits behind it could.
pub weigh-cons :
    (l r : List ℕ) (x y : ℕ)
    → length l ≡ length r
    → weigh (x ∷ l) (y ∷ r) 0 ≡ flag x y * 2 ^ length l + weigh l r 0
weigh-cons l r x y h = weigh_split l r (0 * 2 + flag x y) h ∙ omega arith

pub weigh-lt : (l r : List ℕ) → length l ≡ length r → weigh l r 0 < 2 ^ length l
weigh-lt [] r h = omega arith
weigh-lt (x ∷ l) [] h = absurd (omega arith)
weigh-lt (x ∷ l) (y ∷ r) h =
    ground
      (arith, weigh-cons l r x y (omega arith), weigh-lt l r (omega arith), pow-suc 2 (length l))

pub bit_xor-IsByte : (a b : ℕ) → a < 256 → b < 256 → bit_xor a b < 256
bit_xor-IsByte a b h k = rw (bit_xor-weigh a b h k) (weigh-lt (bits8 a) (bits8 b) refl)
