-- ===== src/Multipath/Tests.antt =====
-- src/vpn/multipath.rs: three fragments that arrive out of order, and a buffer with a gap.
use ll_vpn.Common.{ℕ, ◌≡◌, ◌≢◌, refl, inl, inr, List, [], ◌∷◌, some, ◌<◌, arith, Bytes}
use ll_vpn.Common.HashMap
use ll_vpn.Storage.Chunk.{concat}
use ll_vpn.Multipath.{ReorderBuffer, seq_eq, new, fragment_data, skip_lost}
use ll_vpn.Multipath.Delivery.{receive}
use ll_vpn.Multipath.Fragments.{receive-fragment_data}
use ll_vpn.Multipath.Stall.{skip_lost_stalls}

abbrev first : ℕ × Bytes
first = (0, 1 ∷ 2 ∷ [])

abbrev second : ℕ × Bytes
second = (1, 3 ∷ 4 ∷ [])

abbrev third : ℕ × Bytes
third = (2, 5 ∷ [])

abbrev arrivals : List (ℕ × Bytes)
arrivals = third ∷ second ∷ third ∷ first ∷ []

cut_test : fragment_data 0 2 (1 ∷ 2 ∷ 3 ∷ 4 ∷ 5 ∷ []) ≡ some (3, first ∷ second ∷ third ∷ [])
unfolding fragment_data
cut_test = refl

receive-fragment_data_example : concat (receive arrivals (new 8)).1 ≡ 1 ∷ 2 ∷ 3 ∷ 4 ∷ 5 ∷ []
receive-fragment_data_example =
    receive-fragment_data 2 8 (1 ∷ 2 ∷ 3 ∷ 4 ∷ 5 ∷ []) 3 (first ∷ second ∷ third ∷ []) arrivals
      (omega arith) cut_test
      (inr (inr (inl refl)), (inr (inl refl), (inr (inr (inl refl)), (inl refl, tt))))
      (inr (inr (inr (inl refl))), (inr (inl refl), (inl refl, tt))) (omega arith)

abbrev gap : ReorderBuffer
gap = record { buffer = (7, []) ∷ (5, []) ∷ []; expected_seq = 2; max_size = 8; timeout = 0 }

skipped_test : 0 < (skip_lost gap).1
unfolding skip_lost
skipped_test = omega arith

others_test : (f : ℕ) → f ≡ 6 → f ≢ (skip_lost gap).0.expected_seq
unfolding skip_lost
others_test f six e = ground (arith, six, e)

skip_lost_stalls_example :
    ((v : Bytes) × (HashMap.get (skip_lost gap).0.expected_seq (skip_lost gap).0.buffer ≡ some v))
    × ((receive ((6, []) ∷ []) (skip_lost gap).0).1 ≡ [])
    × ((receive ((6, []) ∷ []) (skip_lost gap).0).0.expected_seq ≡ (skip_lost gap).0.expected_seq)
skip_lost_stalls_example = skip_lost_stalls gap ((6, []) ∷ []) skipped_test (others_test 6 refl, tt)
