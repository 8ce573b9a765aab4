-- ===== src/Storage/Diff.antt =====
-- src/storage/diff.rs: the blocks in which a local file differs from a remote manifest.
pub mod Blocks
pub mod Transfer
mod Tests
use ll_vpn.Common.{
  ℕ, zero, suc, ◌+◌, ◌-◌, ◌*◌, ◌/◌, ◌%◌, ◌^◌, max, ite, Bool, true, false, ◌&&◌, List, [], ◌∷◌,
  Option, none, some, ltb, ◌==◌, if◌then◌else◌, length, get_or, replicate, Result, ok, err, Bytes,
}
use ll_vpn.NodeId.{Bytes-discrete}
use ll_vpn.Storage.Chunk.{
  Hash, ChunkMeta, FileManifest, num_chunks, chunk_bytes, default_chunk_size,
}

abbrev pub min_diff_chunk_size : ℕ
min_diff_chunk_size = 4096

-- `enum BlockDiffStatus`
pub data BlockDiffStatus : Type 0 where
  unchanged modified added deleted : BlockDiffStatus

-- `struct BlockDiff`
pub record BlockDiff : Type 0 where
  pub index : ℕ
  pub offset : ℕ
  pub size : ℕ
  pub status : BlockDiffStatus
  pub new_hash : Hash
  pub old_hash : Hash

-- `struct FileDiff`
pub record FileDiff : Type 0 where
  pub file_name : Bytes
  pub old_size : ℕ
  pub new_size : ℕ
  pub changed_blocks : List BlockDiff
  pub unchanged_count : ℕ
  pub files_match : Bool

-- `struct DiffReport`
pub record DiffReport : Type 0 where
  pub diff : FileDiff
  pub blocks_to_transfer : ℕ
  pub bytes_to_transfer : ℕ
  pub estimated_secs : ℕ

-- `struct BlockDiffEngine`
pub record BlockDiffEngine : Type 0 where
  pub chunk_size : ℕ

unfoldable pub new : ℕ → BlockDiffEngine
new chunk_size = record { chunk_size = max chunk_size min_diff_chunk_size }

unfoldable pub default : BlockDiffEngine
default = record { chunk_size = default_chunk_size }

pub data DiffError : Type 0 where
  chunk_size_mismatch : ℕ → ℕ → DiffError

abbrev pub no_hash : Hash
no_hash = replicate 32 0

abbrev pub no_chunk : ChunkMeta
no_chunk = record { hash = []; index = 0; offset = 0; size = 0 }

module _ (sha256 : Bytes → Hash) (size : ℕ) (remote : List ChunkMeta) (input : Bytes) where
  abbrev pub remote_chunk : ℕ → ChunkMeta
  remote_chunk i = get_or remote i no_chunk

  -- What the loop finds at index `i`: nothing where the block has not changed.
  unfoldable pub block_diff : ℕ → Option BlockDiff
  block_diff i =
      let piece = chunk_bytes size input i in
      if ltb i (length remote)
      then (if ltb i (num_chunks size input)
          then ite (Bytes-discrete (sha256 piece) (remote_chunk i).hash) none (
              some (record {
                index = i;
                offset = (remote_chunk i).offset;
                size = length piece;
                status = modified;
                new_hash = sha256 piece;
                old_hash = (remote_chunk i).hash;
              }))
          else some (record {
            index = i;
            offset = (remote_chunk i).offset;
            size = 0;
            status = deleted;
            new_hash = no_hash;
            old_hash = (remote_chunk i).hash;
          }))
      else some (record {
        index = i;
        offset = i * size;
        size = length piece;
        status = added;
        new_hash = sha256 piece;
        old_hash = no_hash;
      })

  -- The loop from index `i` on, `n` indices long: the changed blocks and the number of the others.
  unfoldable pub diff_blocks : ℕ → ℕ → List BlockDiff × ℕ
  unfolding block_diff
  diff_blocks i zero = ([], 0)
  diff_blocks i (suc n) =
      let rest = diff_blocks (suc i) n in
      elim (block_diff i) [ none ↦ (rest.0, suc rest.1) | some b ↦ (b ∷ rest.0, rest.1) ]

-- `max` of the two numbers as `u32`.
unfoldable pub max_index : ℕ → List ChunkMeta → Bytes → ℕ
max_index size remote input = max (length remote % 2 ^ 32) (num_chunks size input % 2 ^ 32)

module _ (sha256 : Bytes → Hash) where
  -- The answer where the hashes of the files agree, and after the loop.
  unfoldable pub matching : FileManifest → Bytes → FileDiff
  matching remote input = record {
    file_name = [];
    old_size = remote.file_size;
    new_size = length input;
    changed_blocks = [];
    unchanged_count = length remote.chunks % 2 ^ 32;
    files_match = true;
  }

  unfoldable pub differing : ℕ → FileManifest → Bytes → FileDiff
  unfolding diff_blocks max_index
  differing size remote input =
      let blocks =
        diff_blocks sha256 size remote.chunks input 0 (max_index size remote.chunks input) in
      record {
        file_name = [];
        old_size = remote.file_size;
        new_size = length input;
        changed_blocks = blocks.0;
        unchanged_count = blocks.1;
        files_match = false;
      }

  unfoldable pub diff_files : BlockDiffEngine → FileManifest → Bytes → Result DiffError FileDiff
  unfolding matching differing
  diff_files e remote input =
      if remote.chunk_size == e.chunk_size
      then ok (
          ite (Bytes-discrete (sha256 input) remote.file_hash) (matching remote input)
            (differing e.chunk_size remote input))
      else err (chunk_size_mismatch remote.chunk_size e.chunk_size)

-- The two sums over the blocks that are to be transferred.
unfoldable pub transfers : List BlockDiff → ℕ × ℕ
transfers [] = (0, 0)
transfers (b ∷ bs) =
    let rest = transfers bs in
    elim b.status [
      | added ↦ (suc rest.0, b.size + rest.1)
      | modified ↦ (suc rest.0, b.size + rest.1)
      | deleted ↦ rest
      | unchanged ↦ rest
    ]

-- A second for each million bytes, and one at least if there is a byte.
unfoldable pub seconds_for : ℕ → ℕ
seconds_for bytes =
    if ltb 0 bytes then (if ltb (bytes / 1000000) 1 then 1 else bytes / 1000000) else 0

unfoldable pub generate_report : FileDiff → Bytes → DiffReport
unfolding transfers seconds_for
generate_report diff file_name =
    let sums = transfers diff.changed_blocks in
    record {
      diff = record diff { file_name = file_name };
      blocks_to_transfer = sums.0;
      bytes_to_transfer = sums.1;
      estimated_secs = seconds_for sums.1;
    }
