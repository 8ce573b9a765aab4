-- ===== src/Dht/Bucket/Valid.antt =====
-- src/vpn/dht.rs, `KBucket`: the invariant of a bucket, through its operations.
use ll_vpn.Common.{
  ℕ, suc, ◌≤◌, ◌≡◌, ◌≢◌, refl, inl, inr, List, [], ◌∷◌, ◌++◌, none, some, arith, length,
  length-append, ite, Bytes, key_eq, Option-cases,
}
use ll_vpn.NodeId.{NodeId, node_id_eq}
use ll_vpn.Dht.Bucket.{BucketEntry, KBucket, find, renew, without, insert, touch, remove}

abbrev pub DistinctIds : List BucketEntry → Type 0
DistinctIds [] = Unit {0}
DistinctIds (e ∷ es) = (find e.node_id es ≡ none) × DistinctIds es

pub record IsValid (b : KBucket) : Type 0 where
  pub distinct : DistinctIds b.entries
  pub bounded : length b.entries ≤ b.capacity

abbrev pub entry_of : ℕ → NodeId → Bytes → BucketEntry
entry_of now id addr = record { node_id = id; addr = addr; last_seen = now }

pub find-append_one :
    (id : NodeId) (es : List BucketEntry) (e : BucketEntry)
    → find id (es ++ (e ∷ []))
      ≡ (elim (find id es) [ none ↦ ite (key_eq e.node_id id) (some e) none | some x ↦ some x ])
unfolding find
find-append_one id [] e = refl
find-append_one id (x ∷ es) e = ground (arith, find-append_one id es e)

pub find-renew :
    (now : ℕ) (id j : NodeId) (addr : Bytes) (es : List BucketEntry)
    → find j (renew now id addr es) ≡ (elim (find j es) [
      | none ↦ none
      | some e ↦ ite (key_eq id j) (some (entry_of now id addr)) (some e)
    ])
unfolding find renew
find-renew now id j addr [] = refl
find-renew now id j addr (x ∷ es) = ground (arith, find-renew now id j addr es)

pub find-without_ne :
    (id j : NodeId) (es : List BucketEntry) → id ≢ j → find j (without id es) ≡ find j es
unfolding find without
find-without_ne id j [] other = refl
find-without_ne id j (x ∷ es) other = ground (arith, find-without_ne id j es)

pub find-without_self :
    (id : NodeId) (es : List BucketEntry) → DistinctIds es → find id (without id es) ≡ none
unfolding find without
find-without_self id [] d = refl
find-without_self id (x ∷ es) d = ground (arith, find-without_self id es d.1)

without_absent :
    (id j : NodeId) (es : List BucketEntry) → find j es ≡ none → find j (without id es) ≡ none
unfolding find without
without_absent id j [] h = refl
without_absent id j (x ∷ es) h = ground (arith, without_absent id j es)

append_one-DistinctIds :
    (es : List BucketEntry) (e : BucketEntry)
    → DistinctIds es
    → find e.node_id es ≡ none
    → DistinctIds (es ++ (e ∷ []))
unfolding find
append_one-DistinctIds [] e d h = (refl, tt)
append_one-DistinctIds (x ∷ es) e d h =
    ground (arith, append_one-DistinctIds es e d.1, find-append_one x.node_id es e)

renew-DistinctIds :
    (now : ℕ) (id : NodeId) (addr : Bytes) (es : List BucketEntry)
    → DistinctIds es
    → DistinctIds (renew now id addr es)
unfolding find renew
renew-DistinctIds now id addr [] d = tt
renew-DistinctIds now id addr (x ∷ es) d =
    ground (arith, renew-DistinctIds now id addr es d.1, find-renew now id x.node_id addr es)

pub without-DistinctIds :
    (id : NodeId) (es : List BucketEntry) → DistinctIds es → DistinctIds (without id es)
unfolding find without
without-DistinctIds id [] d = tt
without-DistinctIds id (x ∷ es) d =
    ground (arith, without-DistinctIds id es d.1, without_absent id x.node_id es d.0)

length-renew :
    (now : ℕ) (id : NodeId) (addr : Bytes) (es : List BucketEntry)
    → length (renew now id addr es) ≡ length es
unfolding renew
length-renew now id addr [] = refl
length-renew now id addr (x ∷ es) = ground (arith, length-renew now id addr es)

length-without_found :
    (id : NodeId) (es : List BucketEntry) (e : BucketEntry)
    → find id es ≡ some e
    → suc (length (without id es)) ≡ length es
unfolding find without
length-without_found id [] e h = absurd (ground arith)
length-without_found id (x ∷ es) e h = ground (arith, length-without_found id es e)

length-without-le : (id : NodeId) (es : List BucketEntry) → length (without id es) ≤ length es
unfolding without
length-without-le id [] = omega arith
length-without-le id (x ∷ es) = ground (arith, length-without-le id es)

pub found_id :
    (id : NodeId) (es : List BucketEntry) (e : BucketEntry) → find id es ≡ some e → e.node_id ≡ id
unfolding find
found_id id [] e h = absurd (ground arith)
found_id id (x ∷ es) e h = ground (arith, found_id id es e)

-- Inserting keeps a bucket valid.
pub insert-IsValid :
    (now : ℕ) (b : KBucket) (id : NodeId) (addr : Bytes)
    → IsValid b
    → IsValid (insert now b id addr).0
unfolding insert
insert-IsValid now b id addr v =
    let entry : BucketEntry = record { node_id = id; addr = addr; last_seen = now } in
    ground (
      arith,
      renew-DistinctIds now id addr b.entries v.distinct,
      length-renew now id addr b.entries,
      append_one-DistinctIds b.entries entry v.distinct,
      length-append b.entries (entry ∷ []),
    )

pub touch-IsValid : (now : ℕ) (b : KBucket) (id : NodeId) → IsValid b → IsValid (touch now b id).0
unfolding touch
touch-IsValid now b id v = elim (Option-cases (find id b.entries)) [
  | inl e ↦ rw (e, touch) v
  | inr (x, e) ↦
      let moved : BucketEntry = record x { last_seen = now } in
      let kept = without id b.entries in
      let gone : find moved.node_id kept ≡ none =
        rw (found_id id b.entries x e) (find-without_self id b.entries v.distinct) in
      rw (e, touch)
        (record {
          distinct =
              append_one-DistinctIds kept moved (without-DistinctIds id b.entries v.distinct) gone;
          bounded = omega (
            arith,
            length-append kept (moved ∷ []),
            length-without_found id b.entries x e,
            v.bounded,
          );
        })
]

pub remove-IsValid : (b : KBucket) (id : NodeId) → IsValid b → IsValid (remove b id).0
unfolding remove
remove-IsValid b id v = record {
  distinct = without-DistinctIds id b.entries v.distinct;
  bounded = omega (arith, length-without-le id b.entries, v.bounded);
}

pub capacity-insert :
    (now : ℕ) (b : KBucket) (id : NodeId) (addr : Bytes)
    → (insert now b id addr).0.capacity ≡ b.capacity
unfolding insert
capacity-insert now b id addr = ground arith

pub capacity-touch :
    (now : ℕ) (b : KBucket) (id : NodeId) → (touch now b id).0.capacity ≡ b.capacity
unfolding touch
capacity-touch now b id = ground arith
