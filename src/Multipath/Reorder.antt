-- ===== src/Multipath/Reorder.antt =====
-- src/vpn/multipath.rs, `insert` of the buffer.
use ll_vpn.Common.{
  ℕ, zero, suc, ◌+◌, ◌%◌, ◌^◌, ◌≤◌, ◌<◌, ◌≡◌, refl, ap, subst, ◌⊎◌, inl, inr, if_cases, List, [],
  ◌∷◌, Option, none, some, ltb, length, ℕ_discrete, Bytes, arith,
}
use ll_vpn.Common.HashMap
use ll_vpn.Common.HashMap.{
  HashMap, Distinct, contains_key, get-insert, get-remove, insert-Distinct, remove-Distinct,
  length-insert, length-remove,
}
use ll_vpn.Session.{u64}
use ll_vpn.Multipath.{ReorderBuffer, seq_eq, drain, deliver, store}

-- The pieces `seq`, `seq + 1`, … of a stream, `n` of them.
unfoldable pub pieces : (ℕ → Bytes) → ℕ → ℕ → List Bytes
pieces piece seq zero = []
pieces piece seq (suc n) = piece seq ∷ pieces piece (suc seq) n

module _ (piece : ℕ → Bytes) (last : ℕ) where
  -- What is in the buffer are pieces of the stream, each under its number, and what was delivered are the
  -- pieces before `expected_seq`.
  pub record Inv (b : ReorderBuffer) : Type 0 where
    pub distinct : Distinct b.buffer
    pub sound : (k : ℕ) (v : Bytes) → HashMap.get k b.buffer ≡ some v → (v ≡ piece k) × (k < last)
    pub bounded : b.expected_seq ≤ last

-- A piece that was delivered or is in the buffer.
abbrev pub Held : ReorderBuffer → ℕ → Type 0
Held b k = (k < b.expected_seq) ⊎ ((v : Bytes) × (HashMap.get k b.buffer ≡ some v))

-- From `b` to the state and the output of a call.
pub record Delivers (piece : ℕ → Bytes) (last : ℕ) (b after : ReorderBuffer) (output : List Bytes)
    : Type 0 where
  pub inv : Inv piece last after
  pub count : ℕ
  pub advanced : after.expected_seq ≡ b.expected_seq + count
  pub output_pieces : output ≡ pieces piece b.expected_seq count
  pub keeps : (k : ℕ) → Held b k → Held after k
  pub sized : length after.buffer ≤ length b.buffer
  pub limit : after.max_size ≡ b.max_size

-- One turn of the loop.
abbrev pub taken : ReorderBuffer → ReorderBuffer
taken b = record b {
  buffer = HashMap.remove b.expected_seq b.buffer;
  expected_seq = (b.expected_seq + 1) % 2 ^ 64;
}

drain-none :
    (n : ℕ) (b : ReorderBuffer)
    → HashMap.get b.expected_seq b.buffer ≡ none
    → (b, []) ≡ drain (suc n) b
unfolding drain
drain-none n b e = rw (drain, e) refl

drain-some :
    (n : ℕ) (b : ReorderBuffer) (v : Bytes)
    → HashMap.get b.expected_seq b.buffer ≡ some v
    → ((drain n (taken b)).0, v ∷ (drain n (taken b)).1) ≡ drain (suc n) b
unfolding drain
drain-some n b v e = rw (drain, e) refl

module _ (piece : ℕ → Bytes) (last : ℕ) (below : last < 2 ^ 64) where
  taken-Inv :
      (b : ReorderBuffer) → Inv piece last b → b.expected_seq < last → Inv piece last (taken b)
  taken-Inv b i h = record {
    distinct = remove-Distinct b.expected_seq b.buffer i.distinct;
    sound = λ k v e. ground (arith, e, get-remove k b.expected_seq b.buffer, i.sound k v);
    bounded = omega arith;
  }

  taken_keeps : (b : ReorderBuffer) (k : ℕ) → b.expected_seq < last → Held b k → Held (taken b) k
  taken_keeps b k h (inl l) = inl (omega arith)
  taken_keeps b k h (inr (v, e)) = elim (ℕ_discrete b.expected_seq k) [
    | yes same ↦ inl (omega arith)
    | no other ↦ inr (v, ground (arith, get-remove k b.expected_seq b.buffer, other, e))
  ]

  length-taken :
      (b : ReorderBuffer) (v : Bytes)
      → Inv piece last b
      → HashMap.get b.expected_seq b.buffer ≡ some v
      → length (taken b).buffer + 1 ≡ length b.buffer
  length-taken b v i e = ground (arith, e, length-remove b.expected_seq b.buffer i.distinct)

  step-Delivers :
      (b after : ReorderBuffer) (v : Bytes) (output : List Bytes)
      → Inv piece last b
      → HashMap.get b.expected_seq b.buffer ≡ some v
      → Delivers piece last (taken b) after output
      → Delivers piece last b after (v ∷ output)
  unfolding pieces
  step-Delivers b after v output i e d =
      let (same, h) = i.sound b.expected_seq v e in
      record {
        inv = d.inv;
        count = suc d.count;
        advanced = omega arith;
        output_pieces =
            rw (same, d.output_pieces)
              (ap (λ m. piece b.expected_seq ∷ pieces piece m d.count) (omega arith));
        keeps = λ k held. d.keeps k (taken_keeps b k h held);
        sized = omega (arith, length-taken b v i e);
        limit = d.limit;
      }

  stays-Delivers : (b : ReorderBuffer) → Inv piece last b → Delivers piece last b b []
  unfolding pieces
  stays-Delivers b i = record {
    inv = i;
    count = 0;
    advanced = omega arith;
    output_pieces = refl;
    keeps = λ k held. held;
    sized = omega arith;
    limit = refl;
  }

  pub drain-Delivers :
      (n : ℕ) (b : ReorderBuffer)
      → Inv piece last b
      → Delivers piece last b (drain n b).0 (drain n b).1
  unfolding drain
  drain-Delivers zero b i = stays-Delivers b i
  drain-Delivers (suc n) b i =
      go (drain-Delivers n (taken b)) (HashMap.get b.expected_seq b.buffer) refl
    where
      go :
          (Inv piece last (taken b)
            → Delivers piece last (taken b) (drain n (taken b)).0 (drain n (taken b)).1)
          → (o : Option Bytes) → HashMap.get b.expected_seq b.buffer ≡ o
          → Delivers piece last b (drain (suc n) b).0 (drain (suc n) b).1
      go rest none e =
          subst (λ (r : ReorderBuffer × List Bytes). Delivers piece last b r.0 r.1)
            (drain-none n b e) (stays-Delivers b i)
      go rest (some v) e =
          subst (λ (r : ReorderBuffer × List Bytes). Delivers piece last b r.0 r.1)
            (drain-some n b v e)
            (step-Delivers b (drain n (taken b)).0 v (drain n (taken b)).1 i e
              (rest (taken-Inv b i (i.sound b.expected_seq v e).1)))

  no_entry : (k : ℕ) (m : HashMap ℕ Bytes) → length m ≤ 0 → HashMap.get k m ≡ none
  unfolding HashMap.get
  no_entry k [] h = refl
  no_entry k ((j, v) ∷ m) h = absurd (omega arith)

  -- With a turn for each fragment in the buffer the loop comes to its end.
  pub drain_ends :
      (n : ℕ) (b : ReorderBuffer)
      → Inv piece last b
      → length b.buffer ≤ n
      → HashMap.get (drain n b).0.expected_seq (drain n b).0.buffer ≡ none
  unfolding drain
  drain_ends zero b i h = no_entry b.expected_seq b.buffer h
  drain_ends (suc n) b i h = go (drain_ends n (taken b)) (HashMap.get b.expected_seq b.buffer) refl
    where
      go :
          (Inv piece last (taken b)
            → length (taken b).buffer ≤ n
            → HashMap.get (drain n (taken b)).0.expected_seq (drain n (taken b)).0.buffer ≡ none)
          → (o : Option Bytes) → HashMap.get b.expected_seq b.buffer ≡ o
          → HashMap.get (drain (suc n) b).0.expected_seq (drain (suc n) b).0.buffer ≡ none
      go rest none e =
          subst (λ (r : ReorderBuffer × List Bytes). HashMap.get r.0.expected_seq r.0.buffer ≡ none)
            (drain-none n b e) e
      go rest (some v) e =
          subst (λ (r : ReorderBuffer × List Bytes). HashMap.get r.0.expected_seq r.0.buffer ≡ none)
            (drain-some n b v e)
            (rest (taken-Inv b i (i.sound b.expected_seq v e).1)
              (omega (arith, length-taken b v i e)))

found-insert :
    (k seq : ℕ) (input v : Bytes) (m : HashMap ℕ Bytes)
    → HashMap.get k (HashMap.insert seq input m) ≡ some v
    → ((seq ≡ k) × (input ≡ v)) ⊎ (HashMap.get k m ≡ some v)
found-insert k seq input v m e = elim (ℕ_discrete seq k) [
  | yes same ↦ inl (same, ground (arith, same, e, get-insert k seq input m))
  | no other ↦ inr (ground (arith, other, e, get-insert k seq input m))
]

get-insert_same :
    (k : ℕ) (input : Bytes) (m : HashMap ℕ Bytes)
    → HashMap.get k (HashMap.insert k input m) ≡ some input
get-insert_same k input m = ground (arith, get-insert k k input m)

insert_keeps :
    (k seq : ℕ) (input v : Bytes) (m : HashMap ℕ Bytes)
    → HashMap.get k m ≡ some v
    → (w : Bytes) × (HashMap.get k (HashMap.insert seq input m) ≡ some w)
insert_keeps k seq input v m e = elim (ℕ_discrete seq k) [
  | yes same ↦ (input, ground (arith, same, get-insert k seq input m))
  | no other ↦ (v, ground (arith, other, e, get-insert k seq input m))
]

abbrev pub output_of : Option (List Bytes) → List Bytes
output_of none = []
output_of (some out) = out

module _ (piece : ℕ → Bytes) (last : ℕ) (below : last < 2 ^ 64) where
  -- The buffer before the loop of `insert`.
  pub next_Inv :
      (b : ReorderBuffer)
      → Inv piece last b
      → b.expected_seq < last
      → Inv piece last (record b { expected_seq = u64 (b.expected_seq + 1) })
  next_Inv b i h = record { distinct = i.distinct; sound = i.sound; bounded = omega arith }

  pub deliver-Delivers :
      (b : ReorderBuffer)
      → Inv piece last b
      → b.expected_seq < last
      → Delivers piece last b
          (deliver (piece b.expected_seq) b).0
          (deliver (piece b.expected_seq) b).1
  unfolding deliver pieces
  deliver-Delivers b i h =
      let next = record b { expected_seq = u64 (b.expected_seq + 1) } in
      let d = drain-Delivers piece last below (length b.buffer) next (next_Inv b i h) in
      record {
        inv = d.inv;
        count = suc d.count;
        advanced = omega (arith, d.advanced);
        output_pieces =
            rw d.output_pieces
              (ap (λ m. piece b.expected_seq ∷ pieces piece m d.count) (omega arith));
        keeps = λ k held. d.keeps k (elim held [ inl l ↦ inl (omega arith) | inr v ↦ inr v ]);
        sized = d.sized;
        limit = d.limit;
      }

  pub store-Inv :
      (seq : ℕ) (b : ReorderBuffer)
      → Inv piece last b
      → seq < last
      → Inv piece last (store seq (piece seq) b)
  unfolding store
  store-Inv seq b i h =
      if_cases (Inv piece last) (ltb (length b.buffer) b.max_size) _ _
        (λ room. record {
          distinct = insert-Distinct seq (piece seq) b.buffer i.distinct;
          sound = λ k v e. elim (found-insert k seq (piece seq) v b.buffer e) [
            | inl (same, new) ↦ ground (arith, same, new, h)
            | inr old ↦ i.sound k v old
          ];
          bounded = i.bounded;
        })
        (λ full. i)

  pub store_keeps :
      (seq : ℕ) (input : Bytes) (b : ReorderBuffer) (k : ℕ) → Held b k → Held (store seq input b) k
  unfolding store
  store_keeps seq input b k held =
      if_cases (λ (c : ReorderBuffer). Held c k) (ltb (length b.buffer) b.max_size) _ _
        (λ room. elim held [
          | inl l ↦ inl l
          | inr (v, e) ↦ inr (insert_keeps k seq input v b.buffer e)
        ])
        (λ full. held)

  pub length-store :
      (seq : ℕ) (input : Bytes) (b : ReorderBuffer)
      → length (store seq input b).buffer ≤ length b.buffer + 1
  unfolding store
  length-store seq input b = ground (arith, length-insert seq input b.buffer)

  pub store-Held :
      (seq : ℕ) (input : Bytes) (b : ReorderBuffer)
      → length b.buffer < b.max_size
      → Held (store seq input b) seq
  unfolding store
  store-Held seq input b room =
      if_cases (λ (c : ReorderBuffer). Held c seq) (ltb (length b.buffer) b.max_size) _ _
        (λ h. inr (input, get-insert_same seq input b.buffer))
        (λ full. absurd (ground (arith, full, room)))

  pub store-max_size :
      (seq : ℕ) (input : Bytes) (b : ReorderBuffer) → (store seq input b).max_size ≡ b.max_size
  unfolding store
  store-max_size seq input b = ground arith

  pub store-expected :
      (seq : ℕ) (input : Bytes) (b : ReorderBuffer)
      → (store seq input b).expected_seq ≡ b.expected_seq
  unfolding store
  store-expected seq input b = ground arith
