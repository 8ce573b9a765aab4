-- ===== src/Dht/Table/Nearest.antt =====
-- src/vpn/dht.rs, `find_nearest`, and the sort that it uses.
use Prim.Native.Nat.{Ordering, compare}
use mathlib.Core.List.{Perm}
use mathlib.Core.List.Perm
use ll_vpn.Common.{
  ℕ, suc, ◌≤◌, ◌≡◌, refl, sym, subst, List, [], ◌∷◌, ◌++◌, map, take, drop, take-append_drop,
  length, length-append, length-take, min, arith, All, All-append,
}
use ll_vpn.NodeId.{NodeId, IsNodeId}
use ll_vpn.Dht.Bucket.{BucketEntry, KBucket}
use ll_vpn.Dht.Bucket.Members.{Members}
use ll_vpn.Dht.Distance.Order.{metric, cmp_xor-metric}
use ll_vpn.Dht.Table.{
  DhtManager, insert_sorted, sort_by_distance, all_entries, find_nearest, contact, in_order,
  node_count, sum_lengths,
}
use ll_vpn.Dht.Table.Invariant.{Inv, Placed, Belongs}

abbrev pub Ids : List BucketEntry → Type 0
Ids = All (λ e. IsNodeId e.node_id)

module _ (target : NodeId) where
  -- The distance from the target.
  abbrev pub far : BucketEntry → ℕ
  far e = metric target e.node_id

  abbrev pub NoNearer : ℕ → List BucketEntry → Type 0
  NoNearer n = All (λ e. n ≤ far e)

  abbrev pub Sorted : List BucketEntry → Type 0
  Sorted [] = Unit {0}
  Sorted (e ∷ es) = NoNearer (far e) es × Sorted es

in_order-cases {ℓ} :
    {A : Type ℓ} (P : A → Type 0) (m n : ℕ) (x y : A) (o : Ordering)
    → o ≡ compare m n
    → (m ≤ n → P x)
    → (n ≤ m → P y)
    → P (in_order o x y)
in_order-cases P m n x y Ordering.gt e f g = g (ground arith)
in_order-cases P m n x y Ordering.lt e f g = f (ground arith)
in_order-cases P m n x y Ordering.eq e f g = f (ground arith)

module _ (target : NodeId) (own : IsNodeId target) where
  NoNearer-mono :
      (m n : ℕ) (es : List BucketEntry) → m ≤ n → NoNearer target n es → NoNearer target m es
  NoNearer-mono m n [] h p = tt
  NoNearer-mono m n (e ∷ es) h p = (omega (arith, p.0), NoNearer-mono m n es h p.1)

  -- The two places where an entry can go.
  insert_sorted-cases :
      (P : List BucketEntry → Type 0) (e x : BucketEntry) (xs : List BucketEntry)
      → IsNodeId e.node_id
      → IsNodeId x.node_id
      → (far target e ≤ far target x → P (e ∷ x ∷ xs))
      → (far target x ≤ far target e → P (x ∷ insert_sorted target e xs))
      → P (insert_sorted target e (x ∷ xs))
  unfolding insert_sorted
  insert_sorted-cases P e x xs he hx front behind =
      in_order-cases P (far target e) (far target x) _ _ _
        (cmp_xor-metric target e.node_id x.node_id own he hx) front behind

  insert_sorted-NoNearer :
      (n : ℕ) (e : BucketEntry) (es : List BucketEntry)
      → n ≤ far target e
      → IsNodeId e.node_id
      → Ids es
      → NoNearer target n es
      → NoNearer target n (insert_sorted target e es)
  insert_sorted-NoNearer n e [] h he ids p = unfold insert_sorted in (h, tt)
  insert_sorted-NoNearer n e (x ∷ xs) h he ids p =
      let deeper = insert_sorted-NoNearer n e xs h he ids.1 p.1 in
      insert_sorted-cases (NoNearer target n) e x xs he ids.0 (λ _. (h, p)) (λ _. (p.0, deeper))

  insert_sorted-Sorted :
      (e : BucketEntry) (es : List BucketEntry)
      → IsNodeId e.node_id
      → Ids es
      → Sorted target es
      → Sorted target (insert_sorted target e es)
  insert_sorted-Sorted e [] he ids s = unfold insert_sorted in (tt, tt)
  insert_sorted-Sorted e (x ∷ xs) he ids s =
      let deeper = insert_sorted-Sorted e xs he ids.1 s.1 in
      insert_sorted-cases (Sorted target) e x xs he ids.0
        (λ le. ((le, NoNearer-mono (far target e) (far target x) xs le s.0), s))
        (λ ge. (insert_sorted-NoNearer (far target x) e xs ge he ids.1 s.0, deeper))

  insert_sorted-Ids :
      (e : BucketEntry) (es : List BucketEntry)
      → IsNodeId e.node_id
      → Ids es
      → Ids (insert_sorted target e es)
  insert_sorted-Ids e [] he ids = unfold insert_sorted in (he, tt)
  insert_sorted-Ids e (x ∷ xs) he ids =
      let deeper = insert_sorted-Ids e xs he ids.1 in
      insert_sorted-cases Ids e x xs he ids.0 (λ _. (he, ids)) (λ _. (ids.0, deeper))

  insert_sorted-perm :
      (e : BucketEntry) (es : List BucketEntry)
      → IsNodeId e.node_id
      → Ids es
      → Perm (insert_sorted target e es) (e ∷ es)
  insert_sorted-perm e [] he ids = unfold insert_sorted in Perm.refl (e ∷ [])
  insert_sorted-perm e (x ∷ xs) he ids =
      let deeper = insert_sorted-perm e xs he ids.1 in
      insert_sorted-cases (λ l. Perm l (e ∷ x ∷ xs)) e x xs he ids.0 (λ _. Perm.refl (e ∷ x ∷ xs))
        (λ _. Perm.trans (Perm.cons x deeper) (Perm.swap e x xs))

  sort-Sorted :
      (es : List BucketEntry)
      → Ids es
      → Sorted target (sort_by_distance target es)
        × Ids (sort_by_distance target es)
        × Perm (sort_by_distance target es) es
  unfolding sort_by_distance
  sort-Sorted [] ids = (tt, tt, Perm.refl [])
  sort-Sorted (e ∷ es) ids =
      let (s, i, p) = sort-Sorted es ids.1 in
      (
        insert_sorted-Sorted e (sort_by_distance target es) ids.0 i s,
        insert_sorted-Ids e (sort_by_distance target es) ids.0 i,
        Perm.trans (insert_sorted-perm e (sort_by_distance target es) ids.0 i) (Perm.cons e p),
      )

  NoNearer-append :
      (n : ℕ) (xs ys : List BucketEntry)
      → NoNearer target n (xs ++ ys)
      → NoNearer target n xs × NoNearer target n ys
  NoNearer-append n [] ys h = (tt, h)
  NoNearer-append n (x ∷ xs) ys h = let (l, r) = NoNearer-append n xs ys h.1 in ((h.0, l), r)

  -- The front of a sorted list is sorted, and nothing behind it is nearer than anything in it.
  Sorted-append :
      (xs ys : List BucketEntry)
      → Sorted target (xs ++ ys)
      → Sorted target xs × All (λ x. NoNearer target (far target x) ys) xs
  Sorted-append [] ys s = (tt, tt)
  Sorted-append (x ∷ xs) ys s =
      let (l, r) = NoNearer-append (far target x) xs ys s.0 in
      let (sorted, apart) = Sorted-append xs ys s.1 in ((l, sorted), (r, apart))

length-insert_sorted :
    (target : NodeId) (e : BucketEntry) (es : List BucketEntry)
    → length (insert_sorted target e es) ≡ suc (length es)
unfolding insert_sorted
length-insert_sorted target e [] = refl
length-insert_sorted target e (x ∷ xs) = ground (arith, length-insert_sorted target e xs)

length-sort :
    (target : NodeId) (es : List BucketEntry) → length (sort_by_distance target es) ≡ length es
unfolding sort_by_distance
length-sort target [] = refl
length-sort target (e ∷ es) =
    omega (arith, length-insert_sorted target e (sort_by_distance target es), length-sort target es)

Ids-Placed : (local : NodeId) (i : ℕ) (bs : List KBucket) → Placed local i bs → Ids (all_entries bs)
unfolding all_entries
Ids-Placed local i [] p = tt
Ids-Placed local i (b ∷ bs) p =
    All-append (λ (e : BucketEntry). IsNodeId e.node_id) b.entries (all_entries bs)
      (ids b.entries p.0.members) (Ids-Placed local (suc i) bs p.1)
  where
    ids : (es : List BucketEntry) → Members (Belongs local i) es → Ids es
    ids [] h = tt
    ids (e ∷ es) h = (h.0.2, ids es h.1)

length-all_entries : (bs : List KBucket) → length (all_entries bs) ≡ sum_lengths bs
unfolding all_entries sum_lengths
length-all_entries [] = refl
length-all_entries (b ∷ bs) =
    omega (arith, length-append b.entries (all_entries bs), length-all_entries bs)

-- For a table in order and a target of 32 bytes, the result of `find_nearest` is a part of the table
-- of the size that was asked for, or the whole of a smaller table; it is sorted by the distance from
-- the target, and no node that it leaves out is nearer to the target than one that it has.
pub find_nearest-nearest :
    (d : DhtManager) (target : NodeId) (count : ℕ)
    → Inv d
    → IsNodeId target
    → (near rest : List BucketEntry) × (find_nearest d target count ≡ map contact near)
      × Perm (near ++ rest) (all_entries d.buckets)
      × (length near ≡ min count (node_count d))
      × Sorted target near
      × All (λ x. NoNearer target (far target x) rest) near
unfolding find_nearest node_count
find_nearest-nearest d target count v own =
    let entries = all_entries d.buckets in
    let s = sort_by_distance target entries in
    let (sorted, ids, perm) =
      sort-Sorted target own entries (Ids-Placed d.local_id 0 d.buckets v.placed) in
    let size : length (take count s) ≡ min count (sum_lengths d.buckets) =
      omega
        (arith, length-take count s, length-sort target entries, length-all_entries d.buckets) in
    let whole = take-append_drop count s in
    let (front, apart) =
      Sorted-append target own (take count s) (drop count s)
        (subst (Sorted target) (sym whole) sorted) in
    (
      take count s,
      drop count s,
      refl,
      subst (λ (l : List BucketEntry). Perm l entries) (sym whole) perm,
      size,
      front,
      apart,
    )
