-- ===== src/Storage/Chunk.antt =====
-- src/storage/chunk.rs: a file cut into chunks of one size, its manifest, and the reassembly.
-- SHA-256 is a parameter. The texts of errors are kept as data.
pub mod Cut
pub mod RoundTrip
mod Tests
use ll_vpn.Common.{
  ℕ, zero, suc, ◌+◌, ◌-◌, ◌*◌, ◌/◌, ◌%◌, ◌^◌, min, ite, Bool, true, false, List, [], ◌∷◌, ◌++◌,
  Option, none, some, ◌==◌, if◌then◌else◌, length, take, drop, Result, ok, err, Bytes, map,
}
use ll_vpn.NodeId.{Bytes-discrete}
use ll_vpn.Session.{u64}

-- 4 MiB.
abbrev pub default_chunk_size : ℕ
default_chunk_size = 4 * 1024 * 1024

abbrev pub Hash : Type 0
Hash = Bytes

-- `struct ChunkMeta`
pub record ChunkMeta : Type 0 where
  pub hash : Hash
  pub index : ℕ
  pub offset : ℕ
  pub size : ℕ

-- `struct FileManifest`
pub record FileManifest : Type 0 where
  pub file_hash : Hash
  pub file_size : ℕ
  pub chunks : List ChunkMeta
  pub chunk_size : ℕ

-- `struct Chunker`
pub record Chunker : Type 0 where
  pub chunk_size : ℕ

unfoldable pub new : Chunker
new = record { chunk_size = default_chunk_size }

unfoldable pub with_chunk_size : ℕ → Chunker
with_chunk_size n = record { chunk_size = if n == 0 then default_chunk_size else n }

pub data ReassembleError : Type 0 where
  count_mismatch : ℕ → ℕ → ReassembleError
  size_mismatch : ℕ → ℕ → ℕ → ReassembleError
  hash_mismatch : ReassembleError

-- The number of chunks of a file: the division that rounds up, on a `usize` of 64 bits.
unfoldable pub num_chunks : ℕ → Bytes → ℕ
num_chunks size [] = 0
num_chunks size (b ∷ bs) = u64 (length (b ∷ bs) + size - 1) / size

-- `&data[start..end]`
unfoldable pub slice : Bytes → ℕ → ℕ → Bytes
slice input start end = take (end - start) (drop start input)

-- The bytes of chunk `i`.
unfoldable pub chunk_bytes : ℕ → Bytes → ℕ → Bytes
unfolding slice
chunk_bytes size input i = slice input (i * size) (min (u64 (i * size + size)) (length input))

unfoldable pub concat : List Bytes → Bytes
concat [] = []
concat (c ∷ cs) = c ++ concat cs

-- The first chunk whose size is not the recorded one, over the shorter of the two lists.
unfoldable pub size_fault : List ChunkMeta → List Bytes → Option ReassembleError
size_fault [] chunks = none
size_fault (m ∷ metas) [] = none
size_fault (m ∷ metas) (c ∷ chunks) =
    let rest = size_fault metas chunks in
    if length c == m.size then rest else some (size_mismatch m.index m.size (length c))

module _ (sha256 : Bytes → Hash) where
  unfoldable pub meta_of : ℕ → Bytes → ℕ → ChunkMeta
  meta_of size input i = record {
    hash = sha256 (chunk_bytes size input i);
    index = i % 2 ^ 32;
    offset = i * size;
    size = length (chunk_bytes size input i);
  }

  -- The loop of `chunk_data` from chunk `i` on, `n` chunks long.
  unfoldable pub cut : ℕ → Bytes → ℕ → ℕ → List ChunkMeta × List Bytes
  cut size input i zero = ([], [])
  cut size input i (suc n) =
      let rest = cut size input (suc i) n in
      (meta_of size input i ∷ rest.0, chunk_bytes size input i ∷ rest.1)

  unfoldable pub chunk_data : Chunker → Bytes → FileManifest × List Bytes
  chunk_data c input =
      let parts = cut c.chunk_size input 0 (num_chunks c.chunk_size input) in
      (
        record {
          file_hash = sha256 input;
          file_size = length input;
          chunks = parts.0;
          chunk_size = c.chunk_size;
        },
        parts.1,
      )

  -- The check of the file's hash at the end of `reassemble`.
  unfoldable pub check_hash : Hash → Bytes → Result ReassembleError Bytes
  check_hash expected result =
      ite (Bytes-discrete (sha256 result) expected) (ok result) (err hash_mismatch)

  unfoldable pub reassemble : FileManifest → List Bytes → Result ReassembleError Bytes
  reassemble manifest chunks =
      if length chunks == length manifest.chunks
      then elim (size_fault manifest.chunks chunks) [
        | some e ↦ err e
        | none ↦ check_hash manifest.file_hash (concat chunks)
      ]
      else err (count_mismatch (length manifest.chunks) (length chunks))

  unfoldable pub verify_chunk : ChunkMeta → Bytes → Bool
  verify_chunk m input = ite (Bytes-discrete (sha256 input) m.hash) true false

  unfoldable pub verify_file : FileManifest → Bytes → Bool
  verify_file m input = ite (Bytes-discrete (sha256 input) m.file_hash) true false
