-- ===== src/Common/Keyed.antt =====
-- Tables in which every value stands once, under the key that it names itself.
use mathlib.Core.Path.{◌≡◌, refl}
use mathlib.Core.Bool.{Bool}
use mathlib.Core.Option.{some}
use mathlib.Core.List.{[], ◌∷◌}
use native.Mathlib.Omega.{arith}
use ll_vpn.Common.Tests.{Eq}
use ll_vpn.Common.HashMap
use ll_vpn.Common.HashMap.{
  HashMap, Distinct, insert-Distinct, remove-Distinct, retain-Distinct, update-Distinct, retain,
}

module _ {K V : Type 0} ⦃e : Eq K⦄ (key : V → K) where
  abbrev pub Named : HashMap K V → Type 0
  Named [] = Unit {0}
  Named ((k, v) ∷ m) = (key v ≡ k) × Named m

  pub record IsKeyed (m : HashMap K V) : Type 0 where
    pub distinct : Distinct m
    pub named : Named m

  insert-Named : (v : V) (m : HashMap K V) → Named m → Named (HashMap.insert (key v) v m)
  unfolding HashMap.insert
  insert-Named v [] h = (refl, tt)
  insert-Named v ((k, w) ∷ m) h = ground (arith, insert-Named v m h.1)

  remove-Named : (j : K) (m : HashMap K V) → Named m → Named (HashMap.remove j m)
  unfolding HashMap.remove
  remove-Named j [] h = tt
  remove-Named j ((k, w) ∷ m) h = ground (arith, remove-Named j m h.1)

  retain-Named : (p : K → V → Bool) (m : HashMap K V) → Named m → Named (retain p m)
  unfolding retain
  retain-Named p [] h = tt
  retain-Named p ((k, w) ∷ m) h = ground (arith, retain-Named p m h.1)

  pub insert-IsKeyed : (v : V) (m : HashMap K V) → IsKeyed m → IsKeyed (HashMap.insert (key v) v m)
  insert-IsKeyed v m h = record {
    distinct = insert-Distinct (key v) v m h.distinct;
    named = insert-Named v m h.named;
  }

  pub remove-IsKeyed : (j : K) (m : HashMap K V) → IsKeyed m → IsKeyed (HashMap.remove j m)
  remove-IsKeyed j m h = record {
    distinct = remove-Distinct j m h.distinct;
    named = remove-Named j m h.named;
  }

  pub retain-IsKeyed : (p : K → V → Bool) (m : HashMap K V) → IsKeyed m → IsKeyed (retain p m)
  retain-IsKeyed p m h = record {
    distinct = retain-Distinct p m h.distinct;
    named = retain-Named p m h.named;
  }

  update-Named :
      (j : K) (f : V → V)
      → ((v : V) → key (f v) ≡ key v)
      → (m : HashMap K V) → Named m
      → Named (HashMap.update j f m)
  unfolding HashMap.update
  update-Named j f same [] h = tt
  update-Named j f same ((k, w) ∷ m) h = ground (arith, update-Named j f same m h.1, same w)

  pub update-IsKeyed :
      (j : K) (f : V → V)
      → ((v : V) → key (f v) ≡ key v)
      → (m : HashMap K V) → IsKeyed m
      → IsKeyed (HashMap.update j f m)
  update-IsKeyed j f same m h = record {
    distinct = update-Distinct j f m h.distinct;
    named = update-Named j f same m h.named;
  }

  get-Named : (k : K) (v : V) (m : HashMap K V) → Named m → HashMap.get k m ≡ some v → key v ≡ k
  unfolding HashMap.get
  get-Named k v [] h g = absurd (ground (arith, g))
  get-Named k v ((j, w) ∷ m) h g = ground (arith, get-Named k v m h.1, h.0, g)

  pub get-key : (k : K) (v : V) (m : HashMap K V) → IsKeyed m → HashMap.get k m ≡ some v → key v ≡ k
  get-key k v m h g = get-Named k v m h.named g
