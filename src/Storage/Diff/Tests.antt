-- ===== src/Storage/Diff/Tests.antt =====
-- src/storage/diff.rs: two versions of a file in chunks of three bytes, under a hash that is the bytes.
use ll_vpn.Common.{ℕ, ◌+◌, max, ◌≡◌, refl, [], ◌∷◌, ok, length, arith, Bytes, ℕ_discrete}
use ll_vpn.NodeId.{Bytes-discrete}
use ll_vpn.Storage.Chunk.{
  Hash, FileManifest, chunk_data, cut, meta_of, num_chunks, chunk_bytes, slice,
}
use ll_vpn.Storage.Diff.{
  BlockDiffEngine, FileDiff, diff_files, differing, diff_blocks, block_diff, max_index,
}
use ll_vpn.Storage.Diff.Blocks.{hash_after, hash_at, diff_files-hash_after}

abbrev itself : Bytes → Hash
itself bs = bs

abbrev engine : BlockDiffEngine
engine = record { chunk_size = 3 }

abbrev old_version : Bytes
old_version = 1 ∷ 2 ∷ 3 ∷ 4 ∷ 5 ∷ 6 ∷ 7 ∷ []

abbrev new_version : Bytes
new_version = 1 ∷ 2 ∷ 3 ∷ 4 ∷ 9 ∷ []

abbrev old_manifest : FileManifest
old_manifest = (chunk_data itself (record { chunk_size = 3 }) old_version).0

sizes_test : old_manifest.chunk_size ≡ 3
unfolding chunk_data
sizes_test = refl

few_test : (length old_manifest.chunks ≡ 3) × (num_chunks 3 new_version ≡ 2)
unfolding chunk_data cut num_chunks
few_test = (refl, refl)

other_test : ¬ (itself new_version ≡ old_manifest.file_hash)
unfolding chunk_data
other_test = ground arith

diff_files-hash_after_example :
    (d : FileDiff) × (diff_files itself engine old_manifest new_version ≡ ok d)
    × ((i : ℕ)
        → hash_after old_manifest.chunks d.changed_blocks i
          ≡ hash_at (chunk_data itself (record { chunk_size = 3 }) new_version).0.chunks i)
    × (d.unchanged_count + length d.changed_blocks
        ≡ max (length old_manifest.chunks) (num_chunks 3 new_version))
diff_files-hash_after_example =
    diff_files-hash_after itself engine old_manifest new_version sizes_test other_test
      (omega (arith, few_test.0)) (omega (arith, few_test.1))

abbrev difference : FileDiff
difference = differing itself 3 old_manifest new_version

difference_test : diff_files itself engine old_manifest new_version ≡ ok difference
unfolding diff_files differing chunk_data cut meta_of num_chunks chunk_bytes slice diff_blocks
    block_diff max_index Bytes-discrete ℕ_discrete
difference_test = refl
