-- ===== src/Multipath.antt =====
-- src/vpn/multipath.rs: the buffer that puts fragments in order, and the cutting of data into fragments.
-- The paths, whose scores and weights are floating point numbers, are left out.
pub mod Reorder
pub mod Fragments
pub mod Delivery
pub mod Stall
mod Tests
use ll_vpn.Common.{
  ℕ, zero, suc, ◌+◌, ◌-◌, ◌*◌, ◌/◌, ◌%◌, ◌^◌, min, Bool, true, false, List, [], ◌∷◌, Option, none,
  some, ltb, leb, ◌==◌, if◌then◌else◌, length, take, drop, Eq, ℕ_discrete, Bytes,
}
use ll_vpn.Common.HashMap
use ll_vpn.Common.HashMap.{HashMap, keys}
use ll_vpn.Common.Sorting.{sort_by}
use ll_vpn.Session.{u64}

abbrev pub default_fragment_size : ℕ
default_fragment_size = 1400

abbrev pub default_ack_timeout_ms : ℕ
default_ack_timeout_ms = 3000

instance abbrev pub seq_eq : Eq ℕ
seq_eq = record { eq = ℕ_discrete }

-- `struct ReorderBuffer`
pub record ReorderBuffer : Type 0 where
  pub buffer : HashMap ℕ Bytes
  pub expected_seq : ℕ
  pub max_size : ℕ
  pub timeout : ℕ

unfoldable pub new : ℕ → ReorderBuffer
new max_size = record {
  buffer = [];
  expected_seq = 0;
  max_size = max_size;
  timeout = default_ack_timeout_ms * 10 ^ 6;
}

-- The loop of `insert`, which takes one fragment out of the buffer in each turn: as many turns as there
-- are fragments in the buffer are enough.
unfoldable pub drain : ℕ → ReorderBuffer → ReorderBuffer × List Bytes
drain zero b = (b, [])
drain (suc n) b = elim (HashMap.get b.expected_seq b.buffer) [
  | none ↦ (b, [])
  | some next ↦
      let rest = drain n (record b {
        buffer = HashMap.remove b.expected_seq b.buffer;
        expected_seq = u64 (b.expected_seq + 1);
      }) in
      (rest.0, next ∷ rest.1)
]

-- The fragment that is expected.
unfoldable pub deliver : Bytes → ReorderBuffer → ReorderBuffer × List Bytes
unfolding drain
deliver input b =
    let rest = drain (length b.buffer) (record b { expected_seq = u64 (b.expected_seq + 1) }) in
    (rest.0, input ∷ rest.1)

-- A fragment that comes too early.
unfoldable pub store : ℕ → Bytes → ReorderBuffer → ReorderBuffer
store seq input b =
    if ltb (length b.buffer) b.max_size
    then record b { buffer = HashMap.insert seq input b.buffer }
    else b

unfoldable pub insert : ℕ → Bytes → ReorderBuffer → ReorderBuffer × Option (List Bytes)
unfolding deliver store
insert seq input b =
    if ltb seq b.expected_seq
    then (b, none)
    else if seq == b.expected_seq
    then ((deliver input b).0, some (deliver input b).1)
    else (store seq input b, none)

unfoldable pub expected_sequence : ReorderBuffer → ℕ
expected_sequence b = b.expected_seq

unfoldable pub buffered_count : ReorderBuffer → ℕ
buffered_count b = length b.buffer

unfoldable pub buffered_sequences : ReorderBuffer → List ℕ
buffered_sequences b = sort_by leb (keys b.buffer)

-- `keys().min()`
unfoldable pub min_seq : HashMap ℕ Bytes → Option ℕ
min_seq [] = none
min_seq ((k, v) ∷ m) = elim (min_seq m) [ none ↦ some k | some j ↦ some (min k j) ]

unfoldable pub has_timeout : ReorderBuffer → Bool
unfolding min_seq
has_timeout b = elim (min_seq b.buffer) [
  | none ↦ false
  | some s ↦ ltb (u64 (b.expected_seq + 10)) s
]

unfoldable pub skip_lost : ReorderBuffer → ReorderBuffer × ℕ
unfolding min_seq
skip_lost b = elim (min_seq b.buffer) [
  | none ↦ (b, 0)
  | some s ↦
      if ltb b.expected_seq s then (record b { expected_seq = s }, s - b.expected_seq) else (b, 0)
]

unfoldable pub clear : ReorderBuffer → ReorderBuffer
clear b = record b { buffer = []; expected_seq = 0 }

unfoldable pub is_empty : ReorderBuffer → Bool
is_empty b = length b.buffer == 0

unfoldable pub set_timeout : ℕ → ReorderBuffer → ReorderBuffer
set_timeout timeout b = record b { timeout = timeout }

-- The loop of `fragment_data` behind `offset`. Every turn takes at least one byte, so that one turn for
-- each byte is enough. `offset + fragment_size` is no wrapping sum: from the second turn on the size is at
-- most `offset`, and a slice has fewer than 2 ^ 63 bytes.
unfoldable pub cut_from : ℕ → ℕ → Bytes → ℕ → ℕ → List (ℕ × Bytes)
cut_from zero size input offset seq = []
cut_from (suc n) size input offset seq =
    let end = min (offset + size) (length input) in
    let rest = cut_from n size input end (u64 (seq + 1)) in
    if ltb offset (length input) then (seq, take (end - offset) (drop offset input)) ∷ rest else []

-- `next_seq` and `fragment_size` are the manager's. The number of
-- fragments is computed on `usize`, of 64 bits. A size of 0 panics, which is `none`.
unfoldable pub fragment_data : ℕ → ℕ → Bytes → Option (ℕ × List (ℕ × Bytes))
unfolding cut_from
fragment_data next_seq zero input = none
fragment_data next_seq (suc size) input = some (
  u64 (next_seq + u64 (u64 (length input + suc size) + (2 ^ 64 - 1)) / suc size),
  cut_from (length input) (suc size) input 0 next_seq,
)
