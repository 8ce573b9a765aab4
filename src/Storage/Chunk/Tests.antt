-- ===== src/Storage/Chunk/Tests.antt =====
-- src/storage/chunk.rs: a file of seven bytes in chunks of three, under a toy hash.
use ll_vpn.Common.{◌≡◌, refl, [], ◌∷◌, ok, err, ℕ_discrete, arith, Bytes, List}
use ll_vpn.NodeId.{Bytes-discrete}
use ll_vpn.Storage.Chunk.{
  Hash, FileManifest, Chunker, with_chunk_size, new, num_chunks, chunk_bytes, slice, concat,
  size_fault, meta_of, cut, chunk_data, check_hash, reassemble, hash_mismatch,
}
use ll_vpn.Storage.Chunk.Cut.{IsCuttable}
use ll_vpn.Storage.Chunk.RoundTrip.{reassemble-chunk_data}

-- The bytes and a zero.
abbrev pub toy_hash : Bytes → Hash
toy_hash [] = 0 ∷ []
toy_hash (b ∷ bs) = b ∷ toy_hash bs

abbrev by_three : Chunker
by_three = record { chunk_size = 3 }

abbrev file : Bytes
file = 1 ∷ 2 ∷ 3 ∷ 4 ∷ 5 ∷ 6 ∷ 7 ∷ []

abbrev parts : List Bytes
parts = (1 ∷ 2 ∷ 3 ∷ []) ∷ (4 ∷ 5 ∷ 6 ∷ []) ∷ (7 ∷ []) ∷ []

file-IsCuttable : IsCuttable 3 file
file-IsCuttable = record { positive = omega arith; room = omega arith }

chunk_data_test : (chunk_data toy_hash by_three file).1 ≡ parts
unfolding chunk_data cut num_chunks chunk_bytes slice
chunk_data_test = refl

zero_size_test : with_chunk_size 0 ≡ new
unfolding with_chunk_size new
zero_size_test = refl

swapped_test :
    reassemble toy_hash
      (chunk_data toy_hash by_three file).0
      ((4 ∷ 5 ∷ 6 ∷ []) ∷ (1 ∷ 2 ∷ 3 ∷ []) ∷ (7 ∷ []) ∷ [])
    ≡ err hash_mismatch
unfolding reassemble chunk_data cut meta_of num_chunks chunk_bytes slice size_fault concat
    check_hash Bytes-discrete ℕ_discrete
swapped_test = refl

reassemble-chunk_data_example :
    reassemble toy_hash (chunk_data toy_hash by_three file).0 (chunk_data toy_hash by_three file).1
    ≡ ok file
reassemble-chunk_data_example = reassemble-chunk_data toy_hash by_three file file-IsCuttable

abbrev manifest : FileManifest
manifest = (chunk_data toy_hash by_three file).0
