-- ===== src/Common/HashMap.antt =====
-- `std::collections::HashMap` as an association list. A new key goes to the end, a known key keeps
-- its place: this is one of the orders in which the real map may be walked.
use mathlib.Core.Path.{◌≡◌, refl}
use mathlib.Core.Logic.{ite}
use mathlib.Core.Bool.{Bool, true, false}
use mathlib.Core.Option.{Option, none, some}
use mathlib.Core.List.{List, [], ◌∷◌}
use Prim.Native.Nat.{suc, ◌+◌}
use native.Mathlib.Omega.{arith}
use ll_vpn.Common.Tests.{Eq, key_eq, if◌then◌else◌}
use ll_vpn.Common.Lists.{length}

abbrev pub HashMap {ℓ} : Type ℓ → Type ℓ → Type ℓ
HashMap K V = List (K × V)

module _ {ℓ} {K V : Type ℓ} where
  unfoldable pub keys : HashMap K V → List K
  keys [] = []
  keys ((k, v) ∷ m) = k ∷ keys m

  unfoldable pub values : HashMap K V → List V
  values [] = []
  values ((k, v) ∷ m) = v ∷ values m

  -- `values_mut`
  unfoldable pub update_all : (V → V) → HashMap K V → HashMap K V
  update_all f [] = []
  update_all f ((k, v) ∷ m) = (k, f v) ∷ update_all f m

  unfoldable pub retain : (K → V → Bool) → HashMap K V → HashMap K V
  retain p [] = []
  retain p ((k, v) ∷ m) = let rest = retain p m in if p k v then (k, v) ∷ rest else rest

module _ {ℓ} {K V : Type ℓ} ⦃e : Eq K⦄ where
  unfoldable pub get : K → HashMap K V → Option V
  get k [] = none
  get k ((j, v) ∷ m) = ite (key_eq j k) (some v) (get k m)

  unfoldable pub insert : K → V → HashMap K V → HashMap K V
  insert k v [] = (k, v) ∷ []
  insert k v ((j, w) ∷ m) = ite (key_eq j k) ((k, v) ∷ m) ((j, w) ∷ insert k v m)

  unfoldable pub remove : K → HashMap K V → HashMap K V
  remove k [] = []
  remove k ((j, w) ∷ m) = ite (key_eq j k) (remove k m) ((j, w) ∷ remove k m)

  -- `get_mut`, with what is done to the value
  unfoldable pub update : K → (V → V) → HashMap K V → HashMap K V
  update k f [] = []
  update k f ((j, w) ∷ m) = ite (key_eq j k) ((j, f w) ∷ m) ((j, w) ∷ update k f m)

  abbrev pub contains_key : K → HashMap K V → Bool
  contains_key k m = elim (get k m) [ none ↦ false | some _ ↦ true ]

  -- No key stands twice, which the real map keeps by its construction.
  abbrev pub Distinct : HashMap K V → Type ℓ
  Distinct [] = Unit {ℓ}
  Distinct ((k, v) ∷ m) = (get k m ≡ none) × Distinct m

  pub get-insert :
      (j k : K) (v : V) (m : HashMap K V)
      → get j (insert k v m) ≡ ite (key_eq k j) (some v) (get j m)
  unfolding get insert
  get-insert j k v [] = refl
  get-insert j k v ((i, w) ∷ m) = ground (arith, get-insert j k v m)

  pub get-remove :
      (j k : K) (m : HashMap K V) → get j (remove k m) ≡ ite (key_eq k j) none (get j m)
  unfolding get remove
  get-remove j k [] = ground arith
  get-remove j k ((i, w) ∷ m) = ground (arith, get-remove j k m)

  pub get-update :
      (j k : K) (f : V → V) (m : HashMap K V)
      → get j (update k f m)
        ≡ ite (key_eq k j) (elim (get j m) [ none ↦ none | some v ↦ some (f v) ]) (get j m)
  unfolding get update
  get-update j k f [] = ground arith
  get-update j k f ((i, w) ∷ m) = ground (arith, get-update j k f m)

  pub get-update_all :
      (j : K) (f : V → V) (m : HashMap K V)
      → get j (update_all f m) ≡ elim (get j m) [ none ↦ none | some v ↦ some (f v) ]
  unfolding get update_all
  get-update_all j f [] = refl
  get-update_all j f ((i, w) ∷ m) = ground (arith, get-update_all j f m)

  pub insert-Distinct : (k : K) (v : V) (m : HashMap K V) → Distinct m → Distinct (insert k v m)
  unfolding insert get
  insert-Distinct k v [] d = (refl, tt)
  insert-Distinct k v ((i, w) ∷ m) d =
      ground (arith, insert-Distinct k v m d.1, get-insert i k v m, get-insert k k v m)

  pub remove-Distinct : (k : K) (m : HashMap K V) → Distinct m → Distinct (remove k m)
  unfolding remove get
  remove-Distinct k [] d = tt
  remove-Distinct k ((i, w) ∷ m) d = ground (arith, remove-Distinct k m d.1, get-remove i k m)

  pub update-Distinct : (k : K) (f : V → V) (m : HashMap K V) → Distinct m → Distinct (update k f m)
  unfolding update get
  update-Distinct k f [] d = tt
  update-Distinct k f ((i, w) ∷ m) d = ground (arith, update-Distinct k f m d.1, get-update i k f m)

  pub update_all-Distinct : (f : V → V) (m : HashMap K V) → Distinct m → Distinct (update_all f m)
  unfolding update_all get
  update_all-Distinct f [] d = tt
  update_all-Distinct f ((i, w) ∷ m) d =
      ground (arith, update_all-Distinct f m d.1, get-update_all i f m)

  pub length-update : (k : K) (f : V → V) (m : HashMap K V) → length (update k f m) ≡ length m
  unfolding update
  length-update k f [] = refl
  length-update k f ((i, w) ∷ m) = ground (arith, length-update k f m)

  pub retain_absent :
      (p : K → V → Bool) (j : K) (m : HashMap K V) → get j m ≡ none → get j (retain p m) ≡ none
  unfolding get retain
  retain_absent p j [] h = refl
  retain_absent p j ((i, w) ∷ m) h = ground (arith, retain_absent p j m)

  pub retain-Distinct : (p : K → V → Bool) (m : HashMap K V) → Distinct m → Distinct (retain p m)
  unfolding retain get
  retain-Distinct p [] d = tt
  retain-Distinct p ((i, w) ∷ m) d =
      ground (arith, retain-Distinct p m d.1, retain_absent p i m d.0)

  pub get-retain :
      (p : K → V → Bool) (j : K) (m : HashMap K V)
      → Distinct m
      → get j (retain p m)
        ≡ elim (get j m) [ none ↦ none | some v ↦ if p j v then some v else none ]
  unfolding get retain
  get-retain p j [] d = refl
  get-retain p j ((i, w) ∷ m) d = ground (arith, get-retain p j m d.1, retain_absent p j m)

  pub length-insert :
      (k : K) (v : V) (m : HashMap K V)
      → length (insert k v m) ≡ (if contains_key k m then length m else suc (length m))
  unfolding get insert
  length-insert k v [] = refl
  length-insert k v ((i, w) ∷ m) = ground (arith, length-insert k v m)

  pub remove_absent : (k : K) (m : HashMap K V) → get k m ≡ none → remove k m ≡ m
  unfolding get remove
  remove_absent k [] h = refl
  remove_absent k ((i, w) ∷ m) h = ground (arith, remove_absent k m)

  pub length-remove :
      (k : K) (m : HashMap K V)
      → Distinct m
      → length (remove k m) + (if contains_key k m then 1 else 0) ≡ length m
  unfolding get remove
  length-remove k [] d = refl
  length-remove k ((i, w) ∷ m) d = ground (arith, length-remove k m d.1, remove_absent k m)
