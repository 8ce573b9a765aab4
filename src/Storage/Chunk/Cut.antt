-- ===== src/Storage/Chunk/Cut.antt =====
-- src/storage/chunk.rs, the loop of `chunk_data`: where the chunks lie in the file.
use native.Mathlib.Nat.{suc-mul, div-mul-le_self, lt-div-mul-add}
use ll_vpn.Common.{
  ℕ, zero, suc, ◌+◌, ◌-◌, ◌*◌, ◌^◌, ◌≤◌, ◌<◌, min, ◌≡◌, refl, ap, ◌∙◌, [], ◌∷◌, length, take, drop,
  length-take, length-drop, drop-drop, take-append_drop, take_all, drop_all, dec_le, sym, none,
  arith, Bytes,
}
use ll_vpn.Storage.Chunk.{Hash, num_chunks, chunk_bytes, slice, concat, cut, meta_of, size_fault}

-- A number of entries beyond the end counts as the end.
pub take-min : (n : ℕ) (xs : Bytes) → take (min n (length xs)) xs ≡ take n xs
take-min n xs = elim (dec_le n (length xs)) [
  | yes within ↦ ap (λ (t : ℕ). take t xs) (omega arith)
  | no beyond ↦
      ap (λ (t : ℕ). take t xs) (omega arith)
      ∙ take_all (length xs) xs (omega arith)
      ∙ sym (take_all n xs (omega arith))
]

-- What makes the arithmetic of `usize` exact.
pub record IsCuttable (size : ℕ) (input : Bytes) : Type 0 where
  pub positive : 0 < size
  pub room : length input + size ≤ 2 ^ 64

pub num_chunks-enough :
    (size : ℕ) (input : Bytes) → IsCuttable size input → length input ≤ num_chunks size input * size
unfolding num_chunks
num_chunks-enough size [] h = omega arith
num_chunks-enough size (b ∷ bs) h =
    omega (arith, h.positive, h.room, lt-div-mul-add {a = length (b ∷ bs) + size - 1} h.positive)

pub num_chunks-tight :
    (size : ℕ) (input : Bytes)
    → IsCuttable size input
    → num_chunks size input * size < length input + size
unfolding num_chunks
num_chunks-tight size [] h = omega (arith, h.positive)
num_chunks-tight size (b ∷ bs) h =
    omega (arith, h.positive, h.room, div-mul-le_self (length (b ∷ bs) + size - 1) size)

module _ (size : ℕ) (input : Bytes) (h : IsCuttable size input) where
  pub chunk_bytes-take :
      (i : ℕ)
      → i * size < length input
      → chunk_bytes size input i ≡ take size (drop (i * size) input)
  unfolding chunk_bytes slice
  chunk_bytes-take i lt =
      ap (λ (t : ℕ). take t (drop (i * size) input))
        (omega (arith, h.room, length-drop (i * size) input))
      ∙ take-min size (drop (i * size) input)

  pub length-chunk_bytes :
      (i : ℕ)
      → i * size < length input
      → length (chunk_bytes size input i) ≡ min size (length input - i * size)
  length-chunk_bytes i lt =
      rw (chunk_bytes-take i lt)
        (omega (arith, length-take size (drop (i * size) input), length-drop (i * size) input))

module _ (sha256 : Bytes → Hash) (size : ℕ) (input : Bytes) where
  pub length-cut : (i n : ℕ) → length (cut sha256 size input i n).1 ≡ n
  unfolding cut
  length-cut i zero = refl
  length-cut i (suc n) = ap suc (length-cut (suc i) n)

  pub length-cut_meta : (i n : ℕ) → length (cut sha256 size input i n).0 ≡ n
  unfolding cut
  length-cut_meta i zero = refl
  length-cut_meta i (suc n) = ap suc (length-cut_meta (suc i) n)

  pub size_fault-cut :
      (i n : ℕ) → size_fault (cut sha256 size input i n).0 (cut sha256 size input i n).1 ≡ none
  unfolding cut size_fault meta_of
  size_fault-cut i zero = refl
  size_fault-cut i (suc n) = ground (arith, size_fault-cut (suc i) n)

module _ (sha256 : Bytes → Hash) (size : ℕ) (input : Bytes) (h : IsCuttable size input) where
  -- The chunks from `i` on are the file from there on.
  pub concat-cut :
      (i n : ℕ)
      → length input ≤ i * size + n * size
      → i * size + n * size < length input + size
      → concat (cut sha256 size input i n).1 ≡ drop (i * size) input
  unfolding cut concat
  concat-cut i zero enough tight = sym (drop_all (i * size) input (omega arith))
  concat-cut i (suc n) enough tight =
      rw
        (
          chunk_bytes-take size input h i (omega (arith, suc-mul n size)),
          concat-cut (suc i) n (omega (arith, suc-mul i size, suc-mul n size))
              (omega (arith, suc-mul i size, suc-mul n size)),
          suc-mul i size,
          sym (drop-drop (i * size) size input),
        )
        (take-append_drop size (drop (i * size) input))
