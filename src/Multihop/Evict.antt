-- ===== src/Multihop/Evict.antt =====
-- src/vpn/multihop.rs, `insert_or_evict`: which route makes room.
use ll_vpn.Common.{
  ℕ, ◌+◌, ◌≤◌, ◌<◌, ◌≡◌, refl, inl, inr, ◌⊎◌, ite, [], ◌∷◌, none, some, length, ltb, leb,
  Bool-cases, arith,
}
use ll_vpn.Common.HashMap
use ll_vpn.Common.HashMap.{
  HashMap, Distinct, contains_key, get-insert, get-remove, length-insert, length-remove,
}
use ll_vpn.NodeId.{NodeId, NodeId-discrete, node_id_eq}
use ll_vpn.Multihop.{
  MultiHopEntry, Routes, MultihopManager, oldest, without_oldest, insert_or_evict,
}

-- The entry at a key was active no later than any other.
pub record IsOldest (m : Routes) (k : NodeId) (t : ℕ) : Type 0 where
  pub entry : MultiHopEntry
  pub here : HashMap.get k m ≡ some entry
  pub at : entry.last_active ≡ t
  pub least : (j : NodeId) (e : MultiHopEntry) → HashMap.get j m ≡ some e → t ≤ e.last_active

one-IsOldest : (k : NodeId) (e : MultiHopEntry) → IsOldest ((k, e) ∷ []) k e.last_active
unfolding HashMap.get
one-IsOldest k e = record {
  entry = e;
  here = ground arith;
  at = refl;
  least = λ j f g. ground (arith, g);
}

head-IsOldest :
    (k : NodeId) (e : MultiHopEntry) (m : Routes) (j : NodeId) (t : ℕ)
    → IsOldest m j t
    → e.last_active ≤ t
    → IsOldest ((k, e) ∷ m) k e.last_active
unfolding HashMap.get
head-IsOldest k e m j t o h = record {
  entry = e;
  here = ground arith;
  at = refl;
  least = λ i f g. ground (arith, o.least i f, g, h);
}

tail-IsOldest :
    (k : NodeId) (e : MultiHopEntry) (m : Routes) (j : NodeId) (t : ℕ)
    → HashMap.get k m ≡ none
    → IsOldest m j t
    → t ≤ e.last_active
    → IsOldest ((k, e) ∷ m) j t
unfolding HashMap.get
tail-IsOldest k e m j t fresh o h = record {
  entry = o.entry;
  here = ground (arith, o.here, fresh);
  at = o.at;
  least = λ i f g. ground (arith, o.least i f, g, h);
}

-- What `oldest` finds: nothing in an empty table, and otherwise an entry that was active no later than any.
oldest_lem :
    (m : Routes)
    → Distinct m
    → ((m ≡ []) × (oldest m ≡ none)) ⊎ ((o : NodeId × ℕ) × (oldest m ≡ some o) × IsOldest m o.0 o.1)
unfolding oldest
oldest_lem [] d = inl (refl, refl)
oldest_lem ((k, e) ∷ m) d = elim (oldest_lem m d.1) [
  | inl empty ↦ inr ((k, e.last_active), rw (oldest, empty.1), rw (empty.0) (one-IsOldest k e))
  | inr found ↦ elim (Bool-cases (leb e.last_active found.0.1)) [
    | inl older ↦ inr (
      (k, e.last_active),
      ground (arith, found.1, older),
      head-IsOldest k e m found.0.0 found.0.1 found.2 (ground (arith, older)),
    )
    | inr younger ↦ inr (
      found.0,
      ground (arith, found.1, younger),
      tail-IsOldest k e m found.0.0 found.0.1 d.0 found.2 (ground (arith, younger)),
    )
  ]
]

length-without_oldest :
    (m : Routes) → Distinct m → 0 < length m → length (without_oldest m) + 1 ≡ length m
unfolding without_oldest
length-without_oldest m d h = elim (oldest_lem m d) [
  | inl empty ↦ absurd (ground (arith, empty.0, h))
  | inr (o, e, old) ↦ ground (arith, e, old.here, length-remove o.0 m d)
]

insert_one_more :
    (k : NodeId) (e : MultiHopEntry) (m : Routes) → length (HashMap.insert k e m) ≤ length m + 1
insert_one_more k e m = ground (arith, length-insert k e m)

-- The table after an insertion is no larger than the manager allows.
pub length-insert_or_evict :
    (e : MultiHopEntry) (m : MultihopManager)
    → Distinct m.routes
    → 0 < m.max_entries
    → length m.routes ≤ m.max_entries
    → length (insert_or_evict e m).routes ≤ m.max_entries
unfolding insert_or_evict
length-insert_or_evict e m d room h = elim (Bool-cases (contains_key e.target m.routes)) [
  | inl known ↦ ground (arith, known, length-insert e.target e m.routes)
  | inr new ↦ elim (Bool-cases (ltb (length m.routes) m.max_entries)) [
    | inl space ↦ ground (arith, new, space, insert_one_more e.target e m.routes)
    | inr full ↦
        rw (new, full)
          (omega (
            arith,
            insert_one_more e.target e (without_oldest m.routes),
            length-without_oldest m.routes d (ground (arith, full)),
          ))
  ]
]

-- In a full table, `insert_or_evict` with a new target gives up exactly one route, one that was active no
-- later than any other; every other route stays as it is, and the new one is found.
pub insert_or_evict-IsOldest :
    (e : MultiHopEntry) (m : MultihopManager)
    → Distinct m.routes
    → 0 < length m.routes
    → HashMap.get e.target m.routes ≡ none
    → m.max_entries ≤ length m.routes
    → (k : NodeId) × (t : ℕ) × IsOldest m.routes k t
      × ((j : NodeId)
          → HashMap.get j (insert_or_evict e m).routes
            ≡ ite
                (NodeId-discrete e.target j)
                (some e)
                (ite (NodeId-discrete k j) none (HashMap.get j m.routes)))
unfolding insert_or_evict without_oldest
insert_or_evict-IsOldest e m d some_there new full = elim (oldest_lem m.routes d) [
  | inl empty ↦ absurd (ground (arith, empty.0, some_there))
  | inr (o, found, old) ↦ (
    o.0,
    o.1,
    old,
    λ j. ground (
      arith,
      found,
      new,
      full,
      get-insert j e.target e (HashMap.remove o.0 m.routes),
      get-remove j o.0 m.routes,
    ),
  )
]
