-- ===== src/Storage/Chunk/RoundTrip.antt =====
-- src/storage/chunk.rs, `Chunker::chunk_data` and `Chunker::reassemble`.
use native.Mathlib.Nat.{suc-mul}
use ll_vpn.Common.{
  ℕ, zero, suc, ◌+◌, ◌*◌, ◌%◌, ◌^◌, ◌≤◌, ◌<◌, min, ◌≡◌, refl, ◌↔◌, List, [], ◌∷◌, none, true,
  length, ok, Bytes, arith, Option-cases, inl, inr,
}
use ll_vpn.Storage.Chunk.{
  Hash, ChunkMeta, FileManifest, Chunker, num_chunks, chunk_bytes, concat, size_fault, meta_of, cut,
  chunk_data, check_hash, reassemble, verify_chunk,
}
use ll_vpn.Storage.Chunk.Cut.{
  IsCuttable, num_chunks-enough, num_chunks-tight, length-chunk_bytes, concat-cut, length-cut,
  length-cut_meta, size_fault-cut,
}

module _ (sha256 : Bytes → Hash) where
  -- For every file that is shorter than the address space less one chunk, and a chunk size above 0,
  -- `reassemble` gives back the file from the manifest and the chunks that `chunk_data` makes.
  pub reassemble-chunk_data :
      (c : Chunker) (input : Bytes)
      → IsCuttable c.chunk_size input
      → reassemble sha256 (chunk_data sha256 c input).0 (chunk_data sha256 c input).1 ≡ ok input
  unfolding reassemble chunk_data check_hash
  reassemble-chunk_data c input h =
      let n = num_chunks c.chunk_size input in
      rw
        (
          length-cut sha256 c.chunk_size input 0 n,
          length-cut_meta sha256 c.chunk_size input 0 n,
          size_fault-cut sha256 c.chunk_size input 0 n,
          concat-cut sha256 c.chunk_size input h 0 n
              (omega (arith, num_chunks-enough c.chunk_size input h))
              (omega (arith, num_chunks-tight c.chunk_size input h)),
        )
        (ground arith)

  -- `reassemble` succeeds exactly if there are as many chunks as the manifest lists, every chunk has its
  -- recorded size, and the hash of what the chunks make up in order is the file's hash; the result is
  -- what they make up.
  pub reassemble_iff :
      (m : FileManifest) (chunks : List Bytes) (result : Bytes)
      → (reassemble sha256 m chunks ≡ ok result)
        ↔ (length chunks ≡ length m.chunks)
          × (size_fault m.chunks chunks ≡ none)
          × (concat chunks ≡ result)
          × (sha256 result ≡ m.file_hash)
  unfolding reassemble check_hash
  reassemble_iff m chunks result = elim (Option-cases (size_fault m.chunks chunks)) [
    | inl none_wrong ↦ rw none_wrong (ground arith)
    | inr (e, wrong) ↦ rw wrong (ground arith)
  ]

  -- The entries from a byte on: each starts where the one before it ends, is not empty, is not larger
  -- than a chunk, carries the hash of its bytes, and the last one ends with the file.
  abbrev pub Tiles : ℕ → ℕ → Bytes → ℕ → List ChunkMeta → Type 0
  Tiles size i input start [] = start ≡ length input
  Tiles size i input start (m ∷ metas) =
      (m.offset ≡ start)
      × (m.index ≡ i % 2 ^ 32)
      × (0 < m.size)
      × (m.size ≤ size)
      × (verify_chunk sha256 m (chunk_bytes size input i) ≡ true)
      × Tiles size (suc i) input (start + m.size) metas

  cut-Tiles :
      (size : ℕ) (input : Bytes) (i n start : ℕ)
      → IsCuttable size input
      → length input ≤ i * size + n * size
      → i * size + n * size < length input + size
      → start ≡ min (i * size) (length input)
      → Tiles size i input start (cut sha256 size input i n).0
  unfolding cut meta_of verify_chunk
  cut-Tiles size input i zero start h enough tight at = omega arith
  cut-Tiles size input i (suc n) start h enough tight at =
      let len = length-chunk_bytes size input h i (omega (arith, suc-mul n size)) in
      let next = suc-mul i size in
      let left = suc-mul n size in
      (
        omega arith,
        refl,
        omega (arith, len, h.positive),
        omega (arith, len),
        ground arith,
        cut-Tiles size input (suc i) n (start + length (chunk_bytes size input i)) h (omega arith)
            (omega arith) (omega (arith, len)),
      )

  -- For every file that is shorter than the address space less one chunk, and a chunk size above 0, the
  -- entries of the manifest tile the file: each starts where the one before it ends, has its position
  -- as index, is not empty and not larger than a chunk, passes `verify_chunk` on its bytes, and the
  -- last one ends with the file.
  pub chunk_data-Tiles :
      (c : Chunker) (input : Bytes)
      → IsCuttable c.chunk_size input
      → Tiles c.chunk_size 0 input 0 (chunk_data sha256 c input).0.chunks
  unfolding chunk_data
  chunk_data-Tiles c input h =
      cut-Tiles c.chunk_size input 0 (num_chunks c.chunk_size input) 0 h
        (omega (arith, num_chunks-enough c.chunk_size input h))
        (omega (arith, num_chunks-tight c.chunk_size input h)) (omega arith)
