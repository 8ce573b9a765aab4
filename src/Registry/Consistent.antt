-- ===== src/Registry/Consistent.antt =====
-- src/registry/center.rs: how the two tables of the server agree, and what each change keeps of it.
use ll_vpn.Common.{
  ℕ, ◌≡◌, ◌≢◌, refl, ◌∙◌, sym, inl, inr, Bool, true, false, [], ◌∷◌, Option, none, some,
  Option-cases, Bytes, arith,
}
use ll_vpn.Common.HashMap
use ll_vpn.Common.HashMap.{
  HashMap, Distinct, insert-Distinct, remove-Distinct, contains_key, get-insert, get-remove,
  get-update,
}
use ll_vpn.NodeId.{NodeId, node_id_eq, bytes_eq}
use ll_vpn.Registry.{
  RegistryEntry, RegistryServer, new, new_entry, touch, lookup, reverse_lookup, save_to_file,
  save_if_dirty, saved, insert_each, with_pair, without_old, upsert,
}

pub saved-tables :
    (writes : Bool) (s : RegistryServer)
    → ((saved writes s).names ≡ s.names) × ((saved writes s).reverse ≡ s.reverse)
unfolding saved save_if_dirty save_to_file
saved-tables true s = (refl, refl)
saved-tables false s = (refl, refl)

-- The same of two tables.
unfoldable pub id_of : Bytes → HashMap Bytes RegistryEntry → Option NodeId
id_of name names = elim (HashMap.get name names) [ none ↦ none | some e ↦ some e.node_id ]

unfoldable pub Agree : HashMap Bytes RegistryEntry → HashMap NodeId Bytes → Type 0
Agree names reverse =
    (id : NodeId) (name : Bytes) → HashMap.get id reverse ≡ some name → id_of name names ≡ some id

-- The name of an id leads back to the id.
abbrev pub IsSound : RegistryServer → Type 0
IsSound s = (id : NodeId) (name : Bytes) → reverse_lookup id s ≡ some name → lookup name s ≡ some id

pub Agree-IsSound : (s : RegistryServer) → Agree s.names s.reverse → IsSound s
unfolding Agree id_of lookup reverse_lookup
Agree-IsSound s h = h

pub IsSound-Agree : (s : RegistryServer) → IsSound s → Agree s.names s.reverse
unfolding Agree id_of lookup reverse_lookup
IsSound-Agree s h = h

-- A new pair of which no reverse entry has the name yet.
insert-Agree :
    (name : Bytes) (e : RegistryEntry) (names : HashMap Bytes RegistryEntry)
    (reverse : HashMap NodeId Bytes)
    → Agree names reverse
    → ((j : NodeId) → HashMap.get j reverse ≢ some name)
    → Agree (HashMap.insert name e names) (HashMap.insert e.node_id name reverse)
unfolding Agree id_of
insert-Agree name e names reverse h new j n found =
    ground
      (arith, get-insert j e.node_id name reverse, get-insert n name e names, found, h j n, new j)

pub with_pair-Agree :
    (now : ℕ) (name : Bytes) (id : NodeId) (reverse : HashMap NodeId Bytes) (s : RegistryServer)
    → Agree s.names reverse
    → ((j : NodeId) → HashMap.get j reverse ≢ some name)
    → Agree (with_pair now name id reverse s).names (with_pair now name id reverse s).reverse
unfolding with_pair new_entry
with_pair-Agree now name id reverse s h new =
    insert-Agree name (new_entry now name id) s.names reverse h new

pub no_entry :
    (name : Bytes) (s : RegistryServer)
    → Agree s.names s.reverse
    → contains_key name s.names ≡ false
    → (j : NodeId) → HashMap.get j s.reverse ≢ some name
unfolding Agree id_of
no_entry name s h free j e = absurd (ground (arith, free, e, h j name))

pub without_old-Agree :
    (name : Bytes) (s : RegistryServer)
    → Agree s.names s.reverse
    → Agree s.names (without_old name s)
unfolding Agree without_old
without_old-Agree name s h j n found = elim (Option-cases (HashMap.get name s.names)) [
  | inl free ↦ h j n (ground (arith, free, found))
  | inr (old, here) ↦ h j n (ground (arith, here, found, get-remove j old.node_id s.reverse))
]

pub without_old_free :
    (name : Bytes) (s : RegistryServer)
    → Agree s.names s.reverse
    → (j : NodeId) → HashMap.get j (without_old name s) ≢ some name
unfolding Agree id_of without_old
without_old_free name s h j e = elim (Option-cases (HashMap.get name s.names)) [
  | inl free ↦ absurd (ground (arith, free, e, h j name))
  | inr (old, here) ↦ absurd (ground (arith, here, e, get-remove j old.node_id s.reverse, h j name))
]

pub touched-Agree :
    (now : ℕ) (name : Bytes) (s : RegistryServer)
    → Agree s.names s.reverse
    → Agree (HashMap.update name (touch now) s.names) s.reverse
unfolding Agree id_of touch
touched-Agree now name s h j n found =
    ground (arith, get-update n name (touch now) s.names, h j n found)

-- The tables of the file, one on top of the other.
pub insert_each-Agree :
    (names : HashMap Bytes RegistryEntry) (more reverse : HashMap NodeId Bytes)
    → Distinct more
    → Agree names more
    → Agree names reverse
    → Agree names (insert_each more reverse)
unfolding insert_each Agree HashMap.get
insert_each-Agree names [] reverse d h k = k
insert_each-Agree names ((id, name) ∷ more) reverse d h k =
    insert_each-Agree names more (HashMap.insert id name reverse) d.1
      (λ j n found. h j n (ground (arith, found, d.0)))
      (λ j n found. ground (arith, get-insert j id name reverse, found, h j n, k j n))

pub insert_each-Distinct :
    (more reverse : HashMap NodeId Bytes) → Distinct reverse → Distinct (insert_each more reverse)
unfolding insert_each
insert_each-Distinct [] reverse d = d
insert_each-Distinct ((id, name) ∷ more) reverse d =
    insert_each-Distinct more (HashMap.insert id name reverse) (insert-Distinct id name reverse d)

pub without_old-Distinct :
    (name : Bytes) (s : RegistryServer) → Distinct s.reverse → Distinct (without_old name s)
unfolding without_old
without_old-Distinct name s d = elim (Option-cases (HashMap.get name s.names)) [
  | inl free ↦ rw (without_old, free) d
  | inr (old, here) ↦ rw (without_old, here) (remove-Distinct old.node_id s.reverse d)
]

names_other :
    (now : ℕ) (first second : Bytes) (other : NodeId) (reverse : HashMap NodeId Bytes)
    (s : RegistryServer)
    → first ≢ second
    → id_of second (with_pair now first other reverse s).names ≡ id_of second s.names
unfolding with_pair id_of
names_other now first second other reverse s apart =
    ground (arith, get-insert second first (new_entry now first other) s.names, apart)

old_gone :
    (now : ℕ) (first : Bytes) (shared other : NodeId) (s : RegistryServer)
    → shared ≢ other
    → id_of first s.names ≡ some shared
    → HashMap.get shared (with_pair now first other (without_old first s) s).reverse ≡ none
unfolding with_pair without_old id_of
old_gone now first shared other s differ one = elim (Option-cases (HashMap.get first s.names)) [
  | inl free ↦ absurd (ground (arith, free, one))
  | inr (e, here) ↦ ground (
    arith,
    here,
    one,
    differ,
    get-insert shared other first (HashMap.remove e.node_id s.reverse),
    get-remove shared e.node_id s.reverse,
  )
]

lookup-id_of : (name : Bytes) (s : RegistryServer) → lookup name s ≡ id_of name s.names
unfolding lookup id_of
lookup-id_of name s = refl

-- A name may have an id for which no name is found: where two names have one id and `upsert` gives the first
-- another, the second still has the id, but `reverse_lookup` finds no name for the id any more.
pub upsert_forgets :
    (writes : Bool) (now : ℕ) (first second : Bytes) (shared other : NodeId) (s : RegistryServer)
    → first ≢ second
    → shared ≢ other
    → lookup first s ≡ some shared
    → lookup second s ≡ some shared
    → (lookup second (upsert writes now first other s).0 ≡ some shared)
      × (reverse_lookup shared (upsert writes now first other s).0 ≡ none)
unfolding upsert reverse_lookup
upsert_forgets writes now first second shared other s apart differ one two =
    let paired = with_pair now first other (without_old first s) s in
    (
      lookup-id_of second (saved writes paired)
          ∙ rw
              (
                (saved-tables writes paired).0,
                names_other now first second other (without_old first s) s apart,
              )
              (sym (lookup-id_of second s) ∙ two),
      rw ((saved-tables writes paired).1)
          (old_gone now first shared other s differ (sym (lookup-id_of first s) ∙ one)),
    )
