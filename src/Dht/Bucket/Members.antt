-- ===== src/Dht/Bucket/Members.antt =====
-- src/vpn/dht.rs, `KBucket`: properties of all node ids in a bucket, through its operations.
use ll_vpn.Common.{
  ℕ, ◌≡◌, subst, inl, inr, List, [], ◌∷◌, some, arith, All, All-append, Bytes, key_eq, Option-cases,
  Bool-cases, if_pos, if_neg, ltb, length,
}
use ll_vpn.NodeId.{NodeId, node_id_eq}
use ll_vpn.Dht.Bucket.{BucketEntry, KBucket, find, renew, without, insert, touch, remove}

module _ (P : NodeId → Type 0) where
  abbrev pub Members : List BucketEntry → Type 0
  Members = All (λ e. P e.node_id)

  found_member :
      (id : NodeId) (es : List BucketEntry) (e : BucketEntry)
      → Members es
      → find id es ≡ some e
      → P e.node_id
  unfolding find
  found_member id [] e h found = absurd (ground arith)
  found_member id (x ∷ es) e h found = elim (key_eq x.node_id id) [
    | yes same ↦
        let here : x ≡ e = ground arith in subst (λ (y : BucketEntry). P y.node_id) here h.0
    | no other ↦ found_member id es e h.1 (ground arith)
  ]

  renew-Members :
      (now : ℕ) (id : NodeId) (addr : Bytes) (es : List BucketEntry)
      → Members es
      → Members (renew now id addr es)
  unfolding renew
  renew-Members now id addr [] h = tt
  renew-Members now id addr (x ∷ es) h = elim (key_eq x.node_id id) [
    | yes same ↦ rw (if_pos _ same) h
    | no other ↦ rw (if_neg _ other) (h.0, renew-Members now id addr es h.1)
  ]

  without-Members : (id : NodeId) (es : List BucketEntry) → Members es → Members (without id es)
  unfolding without
  without-Members id [] h = tt
  without-Members id (x ∷ es) h = elim (key_eq x.node_id id) [
    | yes same ↦ rw (if_pos _ same) h.1
    | no other ↦ rw (if_neg _ other) (h.0, without-Members id es h.1)
  ]

  pub insert-Members :
      (now : ℕ) (b : KBucket) (id : NodeId) (addr : Bytes)
      → P id
      → Members b.entries
      → Members (insert now b id addr).0.entries
  unfolding insert
  insert-Members now b id addr p h = elim (Option-cases (find id b.entries)) [
    | inr (e, known) ↦ rw (known, insert) (renew-Members now id addr b.entries h)
    | inl unknown ↦ elim (Bool-cases (ltb (length b.entries) b.capacity)) [
      | inl room ↦
          rw (unknown, insert, room)
            (All-append (λ (e : BucketEntry). P e.node_id) b.entries _ h (p, tt))
      | inr full ↦ rw (unknown, insert, full) h
    ]
  ]

  pub touch-Members :
      (now : ℕ) (b : KBucket) (id : NodeId) → Members b.entries → Members (touch now b id).0.entries
  unfolding touch
  touch-Members now b id h = elim (Option-cases (find id b.entries)) [
    | inl unknown ↦ rw (unknown, touch) h
    | inr (e, known) ↦
        rw (known, touch)
          (All-append (λ (x : BucketEntry). P x.node_id) (without id b.entries) _
            (without-Members id b.entries h) (found_member id b.entries e h known, tt))
  ]

  pub remove-Members :
      (b : KBucket) (id : NodeId) → Members b.entries → Members (remove b id).0.entries
  unfolding remove
  remove-Members b id h = without-Members id b.entries h
