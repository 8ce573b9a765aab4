-- ===== src/Storage/Diff/Transfer.antt =====
-- src/storage/diff.rs, `generate_report`: how much is to be transferred.
use native.Mathlib.Nat.{suc-mul}
use ll_vpn.Common.{
  ℕ, zero, suc, ◌+◌, ◌-◌, ◌*◌, ◌/◌, ◌%◌, ◌^◌, ◌≤◌, ◌<◌, min, ◌≡◌, inl, inr, ◌⊎◌, List, [], ◌∷◌,
  some, length, drop, length-take, length-drop, Option-cases, arith, Bytes, ok,
}
use ll_vpn.Storage.Chunk.{Hash, ChunkMeta, FileManifest, chunk_bytes, slice}
use ll_vpn.Storage.Diff.{
  BlockDiff, FileDiff, BlockDiffEngine, block_diff, diff_blocks, matching, differing, diff_files,
  transfers, generate_report, seconds_for, max_index,
}

length-chunk_bytes-le :
    (size : ℕ) (input : Bytes) (i : ℕ)
    → length (chunk_bytes size input i) ≤ min size (length input - i * size)
unfolding chunk_bytes slice
length-chunk_bytes-le size input i = omega (
  arith,
  length-take (min ((i * size + size) % 2 ^ 64) (length input) - i * size) (drop (i * size) input),
  length-drop (i * size) input,
)

transfers-cons :
    (b : BlockDiff) (bs : List BlockDiff)
    → ((transfers (b ∷ bs)).1 ≤ b.size + (transfers bs).1)
      × ((transfers (b ∷ bs)).0 ≤ suc (transfers bs).0)
unfolding transfers
transfers-cons b bs = ground arith

module _ (sha256 : Bytes → Hash) (size : ℕ) (remote : List ChunkMeta) (input : Bytes) where
  block_diff-size :
      (i : ℕ) (b : BlockDiff)
      → block_diff sha256 size remote input i ≡ some b
      → b.size ≤ length (chunk_bytes size input i)
  unfolding block_diff
  block_diff-size i b h = ground arith

  transfers-bound :
      (i n : ℕ)
      → (transfers (diff_blocks sha256 size remote input i n).0).1 ≤ length input - i * size
  unfolding diff_blocks transfers
  transfers-bound i zero = omega arith
  transfers-bound i (suc n) = elim (Option-cases (block_diff sha256 size remote input i)) [
    | inl same ↦ rw (diff_blocks, same) (omega (arith, transfers-bound (suc i) n, suc-mul i size))
    | inr (b, e) ↦
        rw (diff_blocks, e)
          (omega (
            arith,
            suc-mul i size,
            transfers-bound (suc i) n,
            length-chunk_bytes-le size input i,
            block_diff-size i b e,
            transfers-cons b (diff_blocks sha256 size remote input (suc i) n).0,
          ))
  ]

transfers-count : (bs : List BlockDiff) → (transfers bs).0 ≤ length bs
unfolding transfers
transfers-count [] = omega arith
transfers-count (b ∷ bs) = omega (arith, transfers-cons b bs, transfers-count bs)

seconds_for-bounds :
    (bytes : ℕ) → (0 < bytes → 0 < seconds_for bytes) × (seconds_for bytes ≤ bytes / 1000000 + 1)
unfolding seconds_for
seconds_for-bounds bytes = ground arith

diff_files-cases :
    (sha256 : Bytes → Hash) (e : BlockDiffEngine) (remote : FileManifest) (input : Bytes)
    (d : FileDiff)
    → diff_files sha256 e remote input ≡ ok d
    → (d ≡ matching sha256 remote input) ⊎ (d ≡ differing sha256 e.chunk_size remote input)
unfolding diff_files
diff_files-cases sha256 e remote input d h = ground arith

changed-bound :
    (sha256 : Bytes → Hash) (e : BlockDiffEngine) (remote : FileManifest) (input : Bytes)
    (d : FileDiff)
    → diff_files sha256 e remote input ≡ ok d
    → (transfers d.changed_blocks).1 ≤ length input
unfolding matching differing transfers
changed-bound sha256 e remote input d h = elim (diff_files-cases sha256 e remote input d h) [
  | inl equal ↦ rw equal (omega arith)
  | inr other ↦ rw other (
      omega (
        arith,
        transfers-bound sha256 e.chunk_size remote.chunks input 0
            (max_index e.chunk_size remote.chunks input),
      ))
]

-- The report on a difference that `diff_files` returns never asks for more bytes than the local file has,
-- nor for more blocks than are listed, and its time is the number of bytes in millions, rounded down,
-- but a second at least where there is a byte to transfer.
pub generate_report_bounds :
    (sha256 : Bytes → Hash) (e : BlockDiffEngine) (remote : FileManifest) (input : Bytes)
    (d : FileDiff) (name : Bytes)
    → diff_files sha256 e remote input ≡ ok d
    → ((generate_report d name).bytes_to_transfer ≤ length input)
      × ((generate_report d name).blocks_to_transfer ≤ length d.changed_blocks)
      × (0 < (generate_report d name).bytes_to_transfer
          → 0 < (generate_report d name).estimated_secs)
      × ((generate_report d name).estimated_secs
          ≤ (generate_report d name).bytes_to_transfer / 1000000 + 1)
unfolding generate_report
generate_report_bounds sha256 e remote input d name h =
    let sums = transfers d.changed_blocks in
    (
      changed-bound sha256 e remote input d h,
      transfers-count d.changed_blocks,
      (seconds_for-bounds sums.1).0,
      (seconds_for-bounds sums.1).1,
    )
