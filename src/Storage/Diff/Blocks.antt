-- ===== src/Storage/Diff/Blocks.antt =====
-- src/storage/diff.rs, `diff_files`: what the changed blocks make of the hashes of the old version.
use ll_vpn.Common.{
  ℕ, zero, suc, ◌+◌, ◌^◌, ◌≤◌, ◌<◌, max, ◌≡◌, ◌≢◌, ◌⊎◌, refl, ap, ◌∙◌, subst, inl, inr, ite, List,
  [], ◌∷◌, Option, none, some, length, get_or, ltb, if◌then◌else◌, Option-cases, arith, dec_lt,
  ℕ_discrete, Bytes, ok,
}
use ll_vpn.Storage.Chunk.{
  Hash, ChunkMeta, FileManifest, num_chunks, chunk_bytes, cut, meta_of, chunk_data,
}
use ll_vpn.Storage.Chunk.Cut.{length-cut_meta}
use ll_vpn.Storage.Diff.{
  BlockDiff, unchanged, modified, added, deleted, FileDiff, BlockDiffEngine, block_diff,
  diff_blocks, max_index, diff_files, differing, no_chunk,
}

unfoldable pub hash_at : List ChunkMeta → ℕ → Option Hash
hash_at [] i = none
hash_at (m ∷ metas) zero = some m.hash
hash_at (m ∷ metas) (suc i) = hash_at metas i

unfoldable pub find_index : ℕ → List BlockDiff → Option BlockDiff
find_index i [] = none
find_index i (b ∷ bs) = ite (ℕ_discrete b.index i) (some b) (find_index i bs)

-- The hash that a receiver with the old version and the changed blocks has at an index.
unfoldable pub hash_after : List ChunkMeta → List BlockDiff → ℕ → Option Hash
unfolding find_index
hash_after old blocks i = elim (find_index i blocks) [
  | none ↦ hash_at old i
  | some b ↦ elim b.status [
    | deleted ↦ none
    | unchanged ↦ hash_at old i
    | modified ↦ some b.new_hash
    | added ↦ some b.new_hash
  ]
]

module _ (sha256 : Bytes → Hash) (size : ℕ) (remote : List ChunkMeta) (input : Bytes) where
  block_diff-index :
      (i : ℕ) (b : BlockDiff) → block_diff sha256 size remote input i ≡ some b → b.index ≡ i
  unfolding block_diff
  block_diff-index i b h = ground arith

  found_below :
      (i n k : ℕ) → k < i → find_index k (diff_blocks sha256 size remote input i n).0 ≡ none
  unfolding diff_blocks find_index
  found_below i zero k h = refl
  found_below i (suc n) k h = elim (Option-cases (block_diff sha256 size remote input i)) [
    | inl same ↦ rw (diff_blocks, same) (found_below (suc i) n k (omega arith))
    | inr (b, e) ↦
        rw (diff_blocks, e) (ground (arith, block_diff-index i b e, found_below (suc i) n k))
  ]

  found_first :
      (i n : ℕ)
      → find_index i (diff_blocks sha256 size remote input i (suc n)).0
        ≡ block_diff sha256 size remote input i
  unfolding find_index diff_blocks
  found_first i n = elim (Option-cases (block_diff sha256 size remote input i)) [
    | inl same ↦ rw (diff_blocks, same) (found_below (suc i) n i (omega arith))
    | inr (b, e) ↦ rw (diff_blocks, e) (ground (arith, block_diff-index i b e))
  ]

  found :
      (i n k : ℕ)
      → i ≤ k
      → k < i + n
      → find_index k (diff_blocks sha256 size remote input i n).0
        ≡ block_diff sha256 size remote input k
  unfolding diff_blocks find_index
  found i zero k lo hi = absurd (omega arith)
  found i (suc n) k lo hi = elim (dec_lt i k) [
    | yes later ↦ elim (Option-cases (block_diff sha256 size remote input i)) [
      | inl same ↦ rw (diff_blocks, same) (found (suc i) n k (omega arith) (omega arith))
      | inr (b, e) ↦ rw (diff_blocks, e) (ground (arith, block_diff-index i b e, found (suc i) n k))
    ]
    | no here ↦
        subst
          (λ (j : ℕ).
            find_index j (diff_blocks sha256 size remote input i (suc n)).0
            ≡ block_diff sha256 size remote input j)
          (omega arith) (found_first i n)
  ]

  found_above :
      (i n k : ℕ) → i + n ≤ k → find_index k (diff_blocks sha256 size remote input i n).0 ≡ none
  unfolding diff_blocks find_index
  found_above i zero k h = refl
  found_above i (suc n) k h = elim (Option-cases (block_diff sha256 size remote input i)) [
    | inl same ↦ rw (diff_blocks, same) (found_above (suc i) n k (omega arith))
    | inr (b, e) ↦
        rw (diff_blocks, e) (ground (arith, block_diff-index i b e, found_above (suc i) n k))
  ]

  counted :
      (i n : ℕ)
      → (diff_blocks sha256 size remote input i n).1
          + length (diff_blocks sha256 size remote input i n).0
        ≡ n
  unfolding diff_blocks
  counted i zero = refl
  counted i (suc n) = elim (Option-cases (block_diff sha256 size remote input i)) [
    | inl same ↦ rw (diff_blocks, same) (omega (arith, counted (suc i) n))
    | inr (b, e) ↦ rw (diff_blocks, e) (omega (arith, counted (suc i) n))
  ]

hash_at-within :
    (metas : List ChunkMeta) (i : ℕ) (d : ChunkMeta)
    → i < length metas
    → hash_at metas i ≡ some (get_or metas i d).hash
unfolding hash_at
hash_at-within [] i d h = absurd (omega arith)
hash_at-within (m ∷ metas) zero d h = refl
hash_at-within (m ∷ metas) (suc i) d h = hash_at-within metas i d (omega arith)

hash_at-beyond : (metas : List ChunkMeta) (i : ℕ) → length metas ≤ i → hash_at metas i ≡ none
unfolding hash_at
hash_at-beyond [] i h = refl
hash_at-beyond (m ∷ metas) zero h = absurd (omega arith)
hash_at-beyond (m ∷ metas) (suc i) h = hash_at-beyond metas i (omega arith)

hash_at-cut :
    (sha256 : Bytes → Hash) (size : ℕ) (input : Bytes) (i n k : ℕ)
    → k < n
    → hash_at (cut sha256 size input i n).0 k ≡ some (sha256 (chunk_bytes size input (i + k)))
unfolding hash_at cut meta_of
hash_at-cut sha256 size input i zero k h = absurd (omega arith)
hash_at-cut sha256 size input i (suc n) zero h =
    ap (λ (t : ℕ). some (sha256 (chunk_bytes size input t))) (omega arith)
hash_at-cut sha256 size input i (suc n) (suc k) h =
    hash_at-cut sha256 size input (suc i) n k (omega arith)
    ∙ ap (λ (t : ℕ). some (sha256 (chunk_bytes size input t))) (omega arith)

-- The hash of a chunk of the new version.
new_hash : (Bytes → Hash) → ℕ → Bytes → ℕ → Option Hash
new_hash sha256 size input i =
    if ltb i (num_chunks size input) then some (sha256 (chunk_bytes size input i)) else none

module _ (sha256 : Bytes → Hash) (size : ℕ) (remote : List ChunkMeta) (input : Bytes) where
  -- One block: the old hash with the block's difference is the new hash.
  block_diff-hash :
      (i : ℕ) (blocks : List BlockDiff)
      → find_index i blocks ≡ block_diff sha256 size remote input i
      → (i < length remote) ⊎ (i < num_chunks size input)
      → hash_after remote blocks i ≡ new_hash sha256 size input i
  unfolding hash_after block_diff new_hash
  block_diff-hash i blocks h inside = elim (dec_lt i (length remote)) [
    | yes old ↦ rw (hash_after, h) (ground (arith, hash_at-within remote i no_chunk old))
    | no not_old ↦ rw (hash_after, h) (ground arith)
  ]

  -- An index beyond both versions.
  nothing-hash :
      (i : ℕ) (blocks : List BlockDiff)
      → find_index i blocks ≡ none
      → length remote ≤ i
      → num_chunks size input ≤ i
      → hash_after remote blocks i ≡ new_hash sha256 size input i
  unfolding new_hash hash_after
  nothing-hash i blocks h old new = rw (hash_after, h, hash_at-beyond remote i old) (ground arith)

  blocks-hash :
      (i : ℕ) (n : ℕ)
      → n ≡ max (length remote) (num_chunks size input)
      → hash_after remote (diff_blocks sha256 size remote input 0 n).0 i
        ≡ new_hash sha256 size input i
  blocks-hash i n e = elim (dec_lt i n) [
    | yes within ↦
        block_diff-hash i _ (found sha256 size remote input 0 n i (omega arith) (omega arith))
          (inside within)
    | no beyond ↦
        nothing-hash i _ (found_above sha256 size remote input 0 n i (omega arith)) (omega arith)
          (omega arith)
  ]
    where
      inside : i < n → (i < length remote) ⊎ (i < num_chunks size input)
      inside within = elim (dec_lt i (length remote)) [
        | yes old ↦ inl old
        | no new ↦ inr (omega arith)
      ]

new_hash-chunk_data :
    (sha256 : Bytes → Hash) (size : ℕ) (input : Bytes) (i : ℕ)
    → new_hash sha256 size input i
      ≡ hash_at (chunk_data sha256 (record { chunk_size = size }) input).0.chunks i
unfolding new_hash chunk_data
new_hash-chunk_data sha256 size input i =
    let n = num_chunks size input in
    elim (dec_lt i n) [
      | yes within ↦ ground (arith, hash_at-cut sha256 size input 0 n i within)
      | no beyond ↦ ground (
        arith,
        hash_at-beyond (cut sha256 size input 0 n).0 i
            (omega (arith, length-cut_meta sha256 size input 0 n)),
      )
    ]

-- For a manifest of the engine's chunk size with another file hash, and fewer than 2^32 chunks on either
-- side, `diff_files` returns a difference from which the hash of every chunk of the local file follows:
-- where a block is listed, it is the block's new hash or, for a deleted block, nothing, and elsewhere
-- the hash of the manifest. Every index of either version is listed or counted as unchanged.
pub diff_files-hash_after :
    (sha256 : Bytes → Hash) (e : BlockDiffEngine) (remote : FileManifest) (input : Bytes)
    → remote.chunk_size ≡ e.chunk_size
    → sha256 input ≢ remote.file_hash
    → length remote.chunks < 2 ^ 32
    → num_chunks e.chunk_size input < 2 ^ 32
    → (d : FileDiff) × (diff_files sha256 e remote input ≡ ok d)
      × ((i : ℕ)
          → hash_after remote.chunks d.changed_blocks i
            ≡ hash_at (chunk_data sha256 (record { chunk_size = e.chunk_size }) input).0.chunks i)
      × (d.unchanged_count + length d.changed_blocks
          ≡ max (length remote.chunks) (num_chunks e.chunk_size input))
unfolding diff_files differing
diff_files-hash_after sha256 e remote input same other few_old few_new =
    let n = max_index e.chunk_size remote.chunks input in
    let exact : n ≡ max (length remote.chunks) (num_chunks e.chunk_size input) = omega arith in
    (
      differing sha256 e.chunk_size remote input,
      ground (arith, other, same),
      λ i.
          blocks-hash sha256 e.chunk_size remote.chunks input i n exact
          ∙ new_hash-chunk_data sha256 e.chunk_size input i,
      counted sha256 e.chunk_size remote.chunks input 0 n ∙ exact,
    )
