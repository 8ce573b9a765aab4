-- ===== src/Common/Words.antt =====
-- Byte strings: lists of numbers below 256, and the big-endian codes of words.
use mathlib.Core.Path.{◌≡◌, refl, sym, ap, ◌∙◌}
use Prim.Native.Nat.{ℕ, zero, suc, ◌+◌, ◌*◌, ◌/◌, ◌%◌, ◌^◌, ◌≤◌, ◌<◌}
use mathlib.Core.List.{List, [], ◌∷◌, ◌++◌}
use native.Mathlib.Omega.{arith}
use native.Mathlib.Nat.{
  pow-suc, pow-succ', div-one, div-div-eq-div-mul, mul-le-mul_right, add-mul, mul_assoc, one-le-pow,
  add-mul-div_right, div-eq_of_lt,
}
use ll_vpn.Common.Lists.{length, All, length-append, take, drop}

abbrev pub Bytes : Type 0
Bytes = List ℕ

abbrev pub IsByte : ℕ → Type 0
IsByte b = b < 256

-- The last `k` bytes of a number, the high one first: `to_be_bytes` of a word of `k` bytes.
unfoldable pub be_bytes : ℕ → ℕ → Bytes
be_bytes zero n = []
be_bytes (suc k) n = be_bytes k (n / 256) ++ (n % 256) ∷ []

unfoldable pub from_be_onto : ℕ → Bytes → ℕ
from_be_onto acc [] = acc
from_be_onto acc (b ∷ bs) = from_be_onto (acc * 256 + b) bs

-- `from_be_bytes`.
unfoldable pub from_be : Bytes → ℕ
unfolding from_be_onto
from_be bs = from_be_onto 0 bs

pub length-be_bytes : (k n : ℕ) → length (be_bytes k n) ≡ k
unfolding be_bytes
length-be_bytes zero n = refl
length-be_bytes (suc k) n =
    omega (arith, length-append (be_bytes k (n / 256)) (n % 256 ∷ []), length-be_bytes k (n / 256))

from_be_onto-append :
    (acc : ℕ) (xs : Bytes) (b : ℕ) → from_be_onto acc (xs ++ b ∷ []) ≡ from_be_onto acc xs * 256 + b
unfolding from_be_onto
from_be_onto-append acc [] b = refl
from_be_onto-append acc (x ∷ xs) b = from_be_onto-append (acc * 256 + x) xs b

pub from_be-be_bytes : (k n : ℕ) → n < 256 ^ k → from_be (be_bytes k n) ≡ n
unfolding from_be be_bytes
from_be-be_bytes zero n h = omega arith
from_be-be_bytes (suc k) n h = omega (
  arith,
  from_be_onto-append 0 (be_bytes k (n / 256)) (n % 256),
  from_be-be_bytes k (n / 256) (omega (arith, pow-suc 256 k)),
)

pub All-append {ℓ κ} :
    {A : Type ℓ} (P : A → Type κ) (xs ys : List A) → All P xs → All P ys → All P (xs ++ ys)
All-append P [] ys h k = k
All-append P (x ∷ xs) ys h k = (h.0, All-append P xs ys h.1 k)

pub All-take {ℓ κ} :
    {A : Type ℓ} (P : A → Type κ) (n : ℕ) (xs : List A) → All P xs → All P (take n xs)
All-take P zero xs h = tt
All-take P (suc n) [] h = tt
All-take P (suc n) (x ∷ xs) h = (h.0, All-take P n xs h.1)

pub All-drop {ℓ κ} :
    {A : Type ℓ} (P : A → Type κ) (n : ℕ) (xs : List A) → All P xs → All P (drop n xs)
All-drop P zero xs h = h
All-drop P (suc n) [] h = tt
All-drop P (suc n) (x ∷ xs) h = All-drop P n xs h.1

pub All-be_bytes : (k n : ℕ) → All IsByte (be_bytes k n)
unfolding be_bytes
All-be_bytes zero n = tt
All-be_bytes (suc k) n =
    All-append IsByte (be_bytes k (n / 256)) _ (All-be_bytes k (n / 256)) (omega arith, tt)

-- A word of `k + 1` bytes has its high byte first.
be_bytes_high : (k n : ℕ) → be_bytes (suc k) n ≡ (n / 256 ^ k % 256) ∷ be_bytes k n
unfolding be_bytes
be_bytes_high zero n = ap (λ (t : ℕ). t % 256 ∷ []) (sym (div-one n))
be_bytes_high (suc k) n =
    ap (λ (l : Bytes). l ++ n % 256 ∷ []) (be_bytes_high k (n / 256))
    ∙ ap (λ (t : ℕ). t % 256 ∷ be_bytes (suc k) n)
        (div-div-eq-div-mul n 256 (256 ^ k) ∙ ap (λ (t : ℕ). n / t) (sym (pow-succ' 256 k)))

from_be_onto_split :
    (acc : ℕ) (bs : Bytes) → from_be_onto acc bs ≡ acc * 256 ^ length bs + from_be_onto 0 bs
unfolding from_be_onto
from_be_onto_split acc [] = omega arith
from_be_onto_split acc (b ∷ bs) =
    from_be_onto_split (acc * 256 + b) bs
    ∙ omega (
      arith,
      add-mul (acc * 256) b (256 ^ length bs),
      mul_assoc acc 256 (256 ^ length bs),
      ap (λ (t : ℕ). acc * t) (pow-succ' 256 (length bs)),
      from_be_onto_split (0 + b) bs,
    )

-- The high byte of a word and the rest of it.
pub from_be-cons : (b : ℕ) (bs : Bytes) → from_be (b ∷ bs) ≡ from_be bs + b * 256 ^ length bs
unfolding from_be
from_be-cons b bs = omega (arith, from_be_onto_split (0 + b) bs)

pub from_be-lt : (bs : Bytes) → All IsByte bs → from_be bs < 256 ^ length bs
unfolding from_be
from_be-lt [] h = omega arith
from_be-lt (b ∷ bs) h =
    let high : b * 256 ^ length bs ≤ 255 * 256 ^ length bs = mul-le-mul_right _ (omega arith) in
    omega (arith, pow-suc 256 (length bs), from_be-cons b bs, from_be-lt bs h.1)

be_bytes_wrap : (k n c : ℕ) → be_bytes k (n + c * 256 ^ k) ≡ be_bytes k n
unfolding be_bytes
be_bytes_wrap zero n c = refl
be_bytes_wrap (suc k) n c =
    let regroup : n + c * 256 ^ suc k ≡ n + c * 256 ^ k * 256 =
      omega (arith, ap (λ (t : ℕ). c * t) (pow-suc 256 k), mul_assoc c (256 ^ k) 256) in
    let high : (n + c * 256 ^ suc k) / 256 ≡ n / 256 + c * 256 ^ k = omega arith in
    let low : (n + c * 256 ^ suc k) % 256 ≡ n % 256 = omega arith in
    rw (high, low, be_bytes_wrap k (n / 256) c)

pub be_bytes-from_be : (bs : Bytes) → All IsByte bs → be_bytes (length bs) (from_be bs) ≡ bs
be_bytes-from_be [] h = unfold be_bytes in refl
be_bytes-from_be (b ∷ bs) h =
    let room : 0 < 256 ^ length bs = one-le-pow (length bs) 256 (omega arith) in
    let top : (from_be bs + b * 256 ^ length bs) / 256 ^ length bs % 256 ≡ b =
      rw (add-mul-div_right (from_be bs) b room, div-eq_of_lt (from_be-lt bs h.1))
        (omega (arith, h.0)) in
    rw
      (
        be_bytes_high (length bs) (from_be (b ∷ bs)),
        from_be-cons b bs,
        be_bytes_wrap (length bs) (from_be bs) b,
        be_bytes-from_be bs h.1,
      )
      (ap (λ (t : ℕ). t ∷ bs) top)

-- Both laws for a string of known length.
pub from_be_lt_of : (k : ℕ) (bs : Bytes) → All IsByte bs → length bs ≡ k → from_be bs < 256 ^ k
from_be_lt_of k bs h size = rw (← size) (from_be-lt bs h)

pub be_bytes_of :
    (k : ℕ) (bs : Bytes) → All IsByte bs → length bs ≡ k → be_bytes k (from_be bs) ≡ bs
be_bytes_of k bs h size = rw (← size) (be_bytes-from_be bs h)
