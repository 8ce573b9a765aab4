-- ===== src/Common/Sorting.antt =====
-- `sort` and `sort_by` of a slice: stable, and a rearrangement. And membership in a list.
use mathlib.Core.Path.{◌≡◌, refl}
use mathlib.Core.Bool.{Bool, true, false}
use mathlib.Core.Logic.{◌⊎◌}
use mathlib.Core.List.{List, [], ◌∷◌}
use Prim.Native.Nat.{ℕ, suc, ◌≤◌}
use native.Mathlib.Omega.{arith}
use ll_vpn.Common.Tests.{ltb, leb, ◌==◌, if◌then◌else◌, if_cases}
use ll_vpn.Common.Lists.{length, All}
use ll_vpn.Common.Words.{Bytes}

-- The lexicographic order of byte strings.
unfoldable pub bytes_leb : Bytes → Bytes → Bool
bytes_leb [] ys = true
bytes_leb (x ∷ xs) [] = false
bytes_leb (x ∷ xs) (y ∷ ys) = let rest = bytes_leb xs ys in if x == y then rest else ltb x y

module _ {A : Type 0} where
  abbrev pub Any : (A → Type 0) → List A → Type 0
  Any P [] = ⊥
  Any P (x ∷ xs) = P x ⊎ Any P xs

  unfoldable pub insert_by : (A → A → Bool) → A → List A → List A
  insert_by le a [] = a ∷ []
  insert_by le a (x ∷ xs) =
      let rest = insert_by le a xs in if le a x then a ∷ (x ∷ xs) else x ∷ rest

  unfoldable pub sort_by : (A → A → Bool) → List A → List A
  unfolding insert_by
  sort_by le [] = []
  sort_by le (x ∷ xs) = insert_by le x (sort_by le xs)

  pub Any-insert_by :
      (P : A → Type 0) (le : A → A → Bool) (a : A) (xs : List A)
      → (Any P (insert_by le a xs) → Any P (a ∷ xs)) × (Any P (a ∷ xs) → Any P (insert_by le a xs))
  unfolding insert_by
  Any-insert_by P le a [] = (λ h. h, λ h. h)
  Any-insert_by P le a (x ∷ xs) = ground (arith, Any-insert_by P le a xs)

  pub Any-sort_by :
      (P : A → Type 0) (le : A → A → Bool) (xs : List A)
      → (Any P (sort_by le xs) → Any P xs) × (Any P xs → Any P (sort_by le xs))
  unfolding sort_by
  Any-sort_by P le [] = (λ h. h, λ h. h)
  Any-sort_by P le (x ∷ xs) =
      ground (arith, Any-insert_by P le x (sort_by le xs), Any-sort_by P le xs)

  pub length-insert_by :
      (le : A → A → Bool) (a : A) (xs : List A) → length (insert_by le a xs) ≡ suc (length xs)
  unfolding insert_by
  length-insert_by le a [] = refl
  length-insert_by le a (x ∷ xs) = ground (arith, length-insert_by le a xs)

  pub length-sort_by : (le : A → A → Bool) (xs : List A) → length (sort_by le xs) ≡ length xs
  unfolding sort_by
  length-sort_by le [] = refl
  length-sort_by le (x ∷ xs) =
      omega (arith, length-insert_by le x (sort_by le xs), length-sort_by le xs)

  -- Sorting by a number: the first entry is least.
  abbrev pub First : (A → ℕ) → List A → Type 0
  First f [] = Unit {0}
  First f (x ∷ xs) = All (λ y. f x ≤ f y) xs

  abbrev pub by : (A → ℕ) → A → A → Bool
  by f x y = leb (f x) (f y)

  All-least :
      (f : A → ℕ) (a b : ℕ) (xs : List A) → a ≤ b → All (λ y. b ≤ f y) xs → All (λ y. a ≤ f y) xs
  All-least f a b [] h k = tt
  All-least f a b (x ∷ xs) h k = (omega (arith, k.0), All-least f a b xs h k.1)

  All-insert_by :
      (P : A → Type 0) (le : A → A → Bool) (a : A) (xs : List A)
      → P a
      → All P xs
      → All P (insert_by le a xs)
  unfolding insert_by
  All-insert_by P le a [] p h = (p, tt)
  All-insert_by P le a (x ∷ xs) p h = ground (arith, All-insert_by P le a xs p h.1, p, h)

  First-insert_by : (f : A → ℕ) (a : A) (xs : List A) → First f xs → First f (insert_by (by f) a xs)
  unfolding insert_by
  First-insert_by f a [] h = tt
  First-insert_by f a (x ∷ xs) h =
      if_cases (First f) (leb (f a) (f x)) (a ∷ (x ∷ xs)) (x ∷ insert_by (by f) a xs)
        (λ before.
          let le : f a ≤ f x = ground (arith, before) in (le, All-least f (f a) (f x) xs le h))
        (λ behind. All-insert_by (λ y. f x ≤ f y) (by f) a xs (ground (arith, behind)) h)

  pub First-sort_by : (f : A → ℕ) (xs : List A) → First f (sort_by (by f) xs)
  unfolding sort_by
  First-sort_by f [] = tt
  First-sort_by f (x ∷ xs) = First-insert_by f x (sort_by (by f) xs) (First-sort_by f xs)
