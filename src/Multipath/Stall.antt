-- ===== src/Multipath/Stall.antt =====
-- src/vpn/multipath.rs, `skip_lost`.
use ll_vpn.Common.{
  ℕ, ◌<◌, ◌≡◌, ◌≢◌, refl, sym, subst, ◌∙◌, List, [], ◌∷◌, Option, none, some, All, Bytes,
  ℕ_discrete, arith,
}
use ll_vpn.Common.HashMap
use ll_vpn.Common.HashMap.{HashMap}
use ll_vpn.Multipath.{ReorderBuffer, seq_eq, store, insert, min_seq, skip_lost}
use ll_vpn.Multipath.Reorder.{output_of}
use ll_vpn.Multipath.Delivery.{receive}

get-min_seq :
    (m : HashMap ℕ Bytes) (s : ℕ) → min_seq m ≡ some s → (v : Bytes) × (HashMap.get s m ≡ some v)
unfolding min_seq HashMap.get
get-min_seq [] s e = absurd (ground (arith, e))
get-min_seq ((k, v) ∷ m) s e = elim (ℕ_discrete k s) [
  | yes same ↦ (v, ground (arith, same))
  | no other ↦
      let (w, found) = get-min_seq m s (ground (arith, e, other)) in
      (w, ground (arith, other, found))
]

-- A number that is not expected.
insert_other :
    (seq : ℕ) (input : Bytes) (b : ReorderBuffer)
    → seq ≢ b.expected_seq
    → (output_of (insert seq input b).1 ≡ [])
      × ((insert seq input b).0.expected_seq ≡ b.expected_seq)
unfolding insert store
insert_other seq input b other = ground (arith, other)

receive_others :
    (fragments : List (ℕ × Bytes)) (b : ReorderBuffer)
    → All (λ (f : ℕ × Bytes). f.0 ≢ b.expected_seq) fragments
    → ((receive fragments b).1 ≡ []) × ((receive fragments b).0.expected_seq ≡ b.expected_seq)
unfolding receive
receive_others [] b h = (refl, refl)
receive_others ((seq, input) ∷ fragments) b h =
    let first = insert_other seq input b h.0 in
    let rest =
      receive_others fragments (insert seq input b).0
        (subst (λ (e : ℕ). All (λ (f : ℕ × Bytes). f.0 ≢ e) fragments) (sym first.1) h.1) in
    (rw (first.0, rest.0) refl, rest.1 ∙ first.1)

skip_lost_nowhere : (b : ReorderBuffer) → min_seq b.buffer ≡ none → 0 < (skip_lost b).1 → ⊥
unfolding skip_lost
skip_lost_nowhere b e h = ground (arith, e, h)

skip_lost_to :
    (b : ReorderBuffer) (s : ℕ)
    → min_seq b.buffer ≡ some s
    → 0 < (skip_lost b).1
    → (skip_lost b).0 ≡ record b { expected_seq = s }
unfolding skip_lost
skip_lost_to b s e h = ground (arith, e, h)

skip_lost-found :
    (b : ReorderBuffer)
    → 0 < (skip_lost b).1
    → (v : Bytes) × (HashMap.get (skip_lost b).0.expected_seq (skip_lost b).0.buffer ≡ some v)
skip_lost-found b h = go (min_seq b.buffer) refl
  where
    go :
        (o : Option ℕ)
        → min_seq b.buffer ≡ o
        → (v : Bytes) × (HashMap.get (skip_lost b).0.expected_seq (skip_lost b).0.buffer ≡ some v)
    go none e = absurd (skip_lost_nowhere b e h)
    go (some s) e =
        subst (λ (c : ReorderBuffer). (v : Bytes) × (HashMap.get c.expected_seq c.buffer ≡ some v))
          (sym (skip_lost_to b s e h)) (get-min_seq b.buffer s e)

-- Where `skip_lost` skips numbers, the fragment that is expected after it lies in the buffer, and until
-- another one with its number arrives, nothing is delivered, whatever arrives.
pub skip_lost_stalls :
    (b : ReorderBuffer) (fragments : List (ℕ × Bytes))
    → 0 < (skip_lost b).1
    → All (λ (f : ℕ × Bytes). f.0 ≢ (skip_lost b).0.expected_seq) fragments
    → ((v : Bytes) × (HashMap.get (skip_lost b).0.expected_seq (skip_lost b).0.buffer ≡ some v))
      × ((receive fragments (skip_lost b).0).1 ≡ [])
      × ((receive fragments (skip_lost b).0).0.expected_seq ≡ (skip_lost b).0.expected_seq)
skip_lost_stalls b fragments h others =
    let r = receive_others fragments (skip_lost b).0 others in (skip_lost-found b h, r.0, r.1)
