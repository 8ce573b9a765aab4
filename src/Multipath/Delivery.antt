-- ===== src/Multipath/Delivery.antt =====
-- src/vpn/multipath.rs: what the buffer delivers of a stream whose fragments arrive in any order.
use ll_vpn.Common.{
  ℕ, zero, suc, ◌+◌, ◌^◌, ◌≤◌, ◌<◌, ◌≡◌, ◌≢◌, refl, sym, ap, subst, ◌∙◌, inl, inr, if_cases, List,
  [], ◌∷◌, ◌++◌, Option, none, ltb, ◌==◌, length, All, dec_lt, Bytes, arith,
}
use ll_vpn.Common.HashMap
use ll_vpn.Common.HashMap.{get-insert}
use ll_vpn.Common.Sorting.{Any}
use ll_vpn.Session.{u64}
use ll_vpn.Multipath.{ReorderBuffer, seq_eq, new, deliver, store, insert}
use ll_vpn.Multipath.Reorder.{
  pieces, Inv, Held, output_of, drain_ends, drain-Delivers, deliver-Delivers, store-Inv,
  store_keeps, length-store, store-Held, store-max_size, store-expected, next_Inv,
}

-- The fragments in the order in which they arrive, and all that is delivered.
unfoldable pub receive : List (ℕ × Bytes) → ReorderBuffer → ReorderBuffer × List Bytes
unfolding insert
receive [] b = (b, [])
receive ((seq, input) ∷ fragments) b =
    let first = insert seq input b in
    let rest = receive fragments first.0 in (rest.0, output_of first.1 ++ rest.1)

-- The loop of `insert` has nothing left to take.
abbrev pub Settled : ReorderBuffer → Type 0
Settled b = HashMap.get b.expected_seq b.buffer ≡ none

-- From `b` to the state and the output of a call that brings fragment `seq`.
pub record Accepts (piece : ℕ → Bytes) (last seq : ℕ) (b after : ReorderBuffer)
    (output : List Bytes) : Type 0 where
  pub inv : Inv piece last after
  pub count : ℕ
  pub advanced : after.expected_seq ≡ b.expected_seq + count
  pub output_pieces : output ≡ pieces piece b.expected_seq count
  pub keeps : (k : ℕ) → Held b k → Held after k
  pub sized : length after.buffer ≤ length b.buffer + 1
  pub limit : after.max_size ≡ b.max_size
  pub settled : Settled b → Settled after
  pub arrived : length b.buffer < b.max_size → Held after seq

module _ (piece : ℕ → Bytes) (last : ℕ) (below : last < 2 ^ 64) where
  old-Accepts :
      (seq : ℕ) (b : ReorderBuffer)
      → Inv piece last b
      → seq < b.expected_seq
      → Accepts piece last seq b b []
  unfolding pieces
  old-Accepts seq b i old = record {
    inv = i;
    count = 0;
    advanced = omega arith;
    output_pieces = refl;
    keeps = λ k held. held;
    sized = omega arith;
    limit = refl;
    settled = λ s. s;
    arrived = λ room. inl old;
  }

  deliver-Settled :
      (b : ReorderBuffer)
      → Inv piece last b
      → b.expected_seq < last
      → Settled (deliver (piece b.expected_seq) b).0
  unfolding deliver
  deliver-Settled b i h =
      drain_ends piece last below (length b.buffer) _ (next_Inv piece last below b i h)
        (omega arith)

  deliver_advances :
      (b : ReorderBuffer)
      → Inv piece last b
      → b.expected_seq < last
      → b.expected_seq < (deliver (piece b.expected_seq) b).0.expected_seq
  unfolding deliver
  deliver_advances b i h =
      let next = record b { expected_seq = u64 (b.expected_seq + 1) } in
      let d =
        drain-Delivers piece last below (length b.buffer) next (next_Inv piece last below b i h) in
      omega (arith, d.advanced)

  expected-Accepts :
      (b : ReorderBuffer)
      → Inv piece last b
      → b.expected_seq < last
      → Accepts piece last b.expected_seq b
          (deliver (piece b.expected_seq) b).0
          (deliver (piece b.expected_seq) b).1
  expected-Accepts b i h =
      let d = deliver-Delivers piece last below b i h in
      record {
        inv = d.inv;
        count = d.count;
        advanced = d.advanced;
        output_pieces = d.output_pieces;
        keeps = d.keeps;
        sized = omega (arith, d.sized);
        limit = d.limit;
        settled = λ s. deliver-Settled b i h;
        arrived = λ room. inl (deliver_advances b i h);
      }

  store-Settled :
      (seq : ℕ) (input : Bytes) (b : ReorderBuffer)
      → seq ≢ b.expected_seq
      → Settled b
      → Settled (store seq input b)
  unfolding store
  store-Settled seq input b other s =
      ground (arith, other, s, get-insert b.expected_seq seq input b.buffer)

  early-Accepts :
      (seq : ℕ) (b : ReorderBuffer)
      → Inv piece last b
      → seq < last
      → seq ≢ b.expected_seq
      → Accepts piece last seq b (store seq (piece seq) b) []
  unfolding pieces
  early-Accepts seq b i h other = record {
    inv = store-Inv piece last below seq b i h;
    count = 0;
    advanced = omega (arith, store-expected piece last below seq (piece seq) b);
    output_pieces = refl;
    keeps = store_keeps piece last below seq (piece seq) b;
    sized = length-store piece last below seq (piece seq) b;
    limit = store-max_size piece last below seq (piece seq) b;
    settled = store-Settled seq (piece seq) b other;
    arrived = store-Held piece last below seq (piece seq) b;
  }

  insert-Accepts :
      (seq : ℕ) (b : ReorderBuffer)
      → Inv piece last b
      → seq < last
      → Accepts piece last seq b
          (insert seq (piece seq) b).0
          (output_of (insert seq (piece seq) b).1)
  unfolding insert
  insert-Accepts seq b i h =
      if_cases
        (λ (r : ReorderBuffer × Option (List Bytes)). Accepts piece last seq b r.0 (output_of r.1))
        (ltb seq b.expected_seq) _ _ (λ old. old-Accepts seq b i (ground (arith, old)))
        (λ fresh.
          if_cases
            (λ (r : ReorderBuffer × Option (List Bytes)).
              Accepts piece last seq b r.0 (output_of r.1))
            (seq == b.expected_seq) _ _
            (λ same.
              let here : b.expected_seq ≡ seq = ground (arith, same) in
              subst
                (λ (k : ℕ). Accepts piece last k b (deliver (piece k) b).0 (deliver (piece k) b).1)
                here (expected-Accepts b i (subst (λ (k : ℕ). k < last) (sym here) h)))
            (λ other. early-Accepts seq b i h (ground (arith, other))))

pieces-append :
    (piece : ℕ → Bytes) (seq n m : ℕ)
    → pieces piece seq (n + m) ≡ pieces piece seq n ++ pieces piece (seq + n) m
unfolding pieces
pieces-append piece seq zero m =
    ap (pieces piece seq) add_left ∙ ap (λ (k : ℕ). pieces piece k m) add_right
  where
    add_left : 0 + m ≡ m
    add_left = omega arith

    add_right : seq ≡ seq + 0
    add_right = omega arith
pieces-append piece seq (suc n) m =
    ap (pieces piece seq) add_left
    ∙ ap (λ xs. piece seq ∷ xs)
        (pieces-append piece (suc seq) n m
          ∙ ap (λ (k : ℕ). pieces piece (suc seq) n ++ pieces piece k m) add_right)
  where
    add_left : suc n + m ≡ suc (n + m)
    add_left = omega arith

    add_right : suc seq + n ≡ seq + suc n
    add_right = omega arith

-- The fragments are pieces of the stream, under their numbers.
abbrev pub AreOf : (ℕ → Bytes) → ℕ → List (ℕ × Bytes) → Type 0
AreOf piece last = All (λ (f : ℕ × Bytes). (f.1 ≡ piece f.0) × (f.0 < last))

-- From `b` to the state and the output after the fragments.
pub record Received (piece : ℕ → Bytes) (last : ℕ) (fragments : List (ℕ × Bytes))
    (b after : ReorderBuffer) (output : List Bytes) : Type 0 where
  pub inv : Inv piece last after
  pub count : ℕ
  pub advanced : after.expected_seq ≡ b.expected_seq + count
  pub output_pieces : output ≡ pieces piece b.expected_seq count
  pub keeps : (k : ℕ) → Held b k → Held after k
  pub settled : Settled b → Settled after
  pub arrived :
      length b.buffer + length fragments ≤ b.max_size
      → (k : ℕ) → Any (λ (f : ℕ × Bytes). f.0 ≡ k) fragments
      → Held after k

accepts_then :
    (piece : ℕ → Bytes) (last seq : ℕ) (input : Bytes) (fragments : List (ℕ × Bytes))
    (b middle after : ReorderBuffer) (out rest : List Bytes)
    → Accepts piece last seq b middle out
    → Received piece last fragments middle after rest
    → Received piece last ((seq, input) ∷ fragments) b after (out ++ rest)
accepts_then piece last seq input fragments b middle after out rest a r = record {
  inv = r.inv;
  count = a.count + r.count;
  advanced = omega (arith, a.advanced, r.advanced);
  output_pieces =
      rw (a.output_pieces, r.output_pieces)
        (sym (
          pieces-append piece b.expected_seq a.count r.count
          ∙ ap (λ k. pieces piece b.expected_seq a.count ++ pieces piece k r.count)
              (sym a.advanced)));
  keeps = λ k held. r.keeps k (a.keeps k held);
  settled = λ s. r.settled (a.settled s);
  arrived = λ room k any. elim any [
    | inl here ↦ r.keeps k (subst (λ (j : ℕ). Held middle j) here (a.arrived (omega arith)))
    | inr later ↦ r.arrived (omega (arith, a.sized, a.limit)) k later
  ];
}

module _ (piece : ℕ → Bytes) (last : ℕ) (below : last < 2 ^ 64) where
  receive-Received :
      (fragments : List (ℕ × Bytes)) (b : ReorderBuffer)
      → AreOf piece last fragments
      → Inv piece last b
      → Received piece last fragments b (receive fragments b).0 (receive fragments b).1
  unfolding receive pieces
  receive-Received [] b f i = record {
    inv = i;
    count = 0;
    advanced = omega arith;
    output_pieces = refl;
    keeps = λ k held. held;
    settled = λ s. s;
    arrived = λ room k a. absurd a;
  }
  receive-Received ((seq, input) ∷ fragments) b f i =
      let a = insert-Accepts piece last below seq b i f.0.1 in
      let r = receive-Received fragments (insert seq (piece seq) b).0 f.1 a.inv in
      subst
        (λ (x : Bytes).
          Received piece last ((seq, x) ∷ fragments) b (receive fragments (insert seq x b).0).0
            (output_of (insert seq x b).1 ++ (receive fragments (insert seq x b).0).1))
        (sym f.0.0)
        (accepts_then piece last seq (piece seq) fragments b (insert seq (piece seq) b).0 _ _ _ a r)

  new-Inv : (max_size : ℕ) → Inv piece last (new max_size)
  unfolding new HashMap.get
  new-Inv max_size = record {
    distinct = tt;
    sound = λ k v e. absurd (ground (arith, e));
    bounded = omega arith;
  }

-- The fragments of a stream of fewer than 2 ^ 64 pieces arrive at a new buffer, in any order, some of them
-- twice or never: what is delivered are the first pieces of the stream in their order. If every piece
-- arrives and the buffer may hold as many fragments as there are arrivals, it is the whole stream.
pub receive-pieces :
    (piece : ℕ → Bytes) (last : ℕ) (fragments : List (ℕ × Bytes)) (max_size : ℕ)
    → last < 2 ^ 64
    → AreOf piece last fragments
    → ((receive fragments (new max_size)).1
        ≡ pieces piece 0 (receive fragments (new max_size)).0.expected_seq)
      × ((receive fragments (new max_size)).0.expected_seq ≤ last)
      × (length fragments ≤ max_size
          → ((k : ℕ) → k < last → Any (λ (f : ℕ × Bytes). f.0 ≡ k) fragments)
          → (receive fragments (new max_size)).1 ≡ pieces piece 0 last)
unfolding new HashMap.get
receive-pieces piece last fragments max_size below f =
    let r =
      receive-Received piece last below fragments (new max_size) f
        (new-Inv piece last below max_size) in
    let counted : r.count ≡ (receive fragments (new max_size)).0.expected_seq =
      omega (arith, r.advanced) in
    let output = r.output_pieces ∙ ap (pieces piece 0) counted in
    (
      output,
      r.inv.bounded,
      λ room complete. output ∙ ap (pieces piece 0) (all_seen r room complete),
    )
  where
    all_seen :
        Received piece last fragments
          (new max_size)
          (receive fragments (new max_size)).0
          (receive fragments (new max_size)).1
        → length fragments ≤ max_size
        → ((k : ℕ) → k < last → Any (λ (f : ℕ × Bytes). f.0 ≡ k) fragments)
        → (receive fragments (new max_size)).0.expected_seq ≡ last
    all_seen r room complete =
        let reached = (receive fragments (new max_size)).0.expected_seq in
        elim (dec_lt reached last) [
          | yes short ↦ elim (r.arrived (omega arith) reached (complete reached short)) [
            | inl before ↦ absurd (omega arith)
            | inr (v, stored) ↦ absurd (ground (arith, stored, r.settled refl))
          ]
          | no all ↦ omega (arith, r.inv.bounded)
        ]
