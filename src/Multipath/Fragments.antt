-- ===== src/Multipath/Fragments.antt =====
-- src/vpn/multipath.rs: data cut into fragments, which arrive in any order at the buffer of the receiver.
use ll_vpn.Common.{
  ℕ, zero, suc, ◌+◌, ◌-◌, ◌^◌, ◌≤◌, ◌<◌, ◌≡◌, refl, sym, ap, subst, ◌∙◌, inl, inr, min, if_cases,
  List, [], ◌∷◌, ◌++◌, some, ltb, length, length-map, take, drop, drop-drop, drop_all,
  take-append_drop, get_or, map, All, Bytes, arith,
}
use ll_vpn.Common.Sorting.{Any}
use ll_vpn.Session.{u64}
use ll_vpn.Storage.Chunk.{concat}
use ll_vpn.Multipath.{new, cut_from, fragment_data}
use ll_vpn.Multipath.Reorder.{pieces}
use ll_vpn.Multipath.Delivery.{AreOf, receive, receive-pieces}

-- The fragments have the numbers from `seq` on.
abbrev pub Numbered : ℕ → List (ℕ × Bytes) → Type 0
Numbered seq [] = Unit {0}
Numbered seq (f ∷ fs) = (f.0 ≡ seq) × Numbered (suc seq) fs

abbrev pub contents : List (ℕ × Bytes) → List Bytes
contents fs = map (λ (f : ℕ × Bytes). f.1) fs

abbrev pub piece_of : List (ℕ × Bytes) → ℕ → Bytes
piece_of fs k = get_or (contents fs) k []

-- The fragment is one of the list.
abbrev pub IsIn : List (ℕ × Bytes) → ℕ × Bytes → Type 0
IsIn fs f = Any (λ (g : ℕ × Bytes). g ≡ f) fs

cut_from-Numbered :
    (n size : ℕ) (input : Bytes) (offset seq : ℕ)
    → seq + n < 2 ^ 64
    → Numbered seq (cut_from n size input offset seq)
unfolding cut_from
cut_from-Numbered zero size input offset seq h = tt
cut_from-Numbered (suc n) size input offset seq h =
    if_cases (Numbered seq) (ltb offset (length input)) _ _
      (λ more. (
        refl,
        subst
            (λ (s : ℕ).
              Numbered (suc seq) (cut_from n size input (min (offset + size) (length input)) s))
            wraps_not
            (cut_from-Numbered n size input (min (offset + size) (length input)) (suc seq)
              (omega arith)),
      ))
      (λ done. tt)
  where
    wraps_not : suc seq ≡ u64 (seq + 1)
    wraps_not = omega arith

drop_in_two :
    (input : Bytes) (offset end : ℕ)
    → offset ≤ end
    → take (end - offset) (drop offset input) ++ drop end input ≡ drop offset input
drop_in_two input offset end h =
    ap (λ xs. take (end - offset) (drop offset input) ++ xs)
      (sym (drop-drop offset (end - offset) input ∙ ap (λ (k : ℕ). drop k input) (omega arith)))
    ∙ take-append_drop (end - offset) (drop offset input)

concat-cut_from :
    (n size : ℕ) (input : Bytes) (offset seq : ℕ)
    → length input ≤ offset + n
    → concat (contents (cut_from n (suc size) input offset seq)) ≡ drop offset input
unfolding cut_from concat
concat-cut_from zero size input offset seq h = sym (drop_all offset input (omega arith))
concat-cut_from (suc n) size input offset seq h =
    if_cases (λ (fs : List (ℕ × Bytes)). concat (contents fs) ≡ drop offset input)
      (ltb offset (length input)) _ _
      (λ more.
        let next = min (offset + suc size) (length input) in
        let inside : offset < length input = ground (arith, more) in
        ap (λ (xs : Bytes). take (next - offset) (drop offset input) ++ xs)
          (concat-cut_from n size input next (u64 (seq + 1)) (omega arith))
        ∙ drop_in_two input offset next (omega arith))
      (λ done. sym (drop_all offset input (ground (arith, done))))

length-cut_from :
    (n size : ℕ) (input : Bytes) (offset seq : ℕ) → length (cut_from n size input offset seq) ≤ n
unfolding cut_from
length-cut_from zero size input offset seq = omega arith
length-cut_from (suc n) size input offset seq =
    ground
      (arith, length-cut_from n size input (min (offset + size) (length input)) (u64 (seq + 1)))

place-IsIn :
    (fs : List (ℕ × Bytes)) (f : ℕ × Bytes) (seq : ℕ)
    → Numbered seq fs
    → IsIn fs f
    → (i : ℕ) × (f.0 ≡ seq + i) × (i < length fs) × (f.1 ≡ get_or (contents fs) i [])
place-IsIn [] f seq h a = absurd a
place-IsIn (g ∷ fs) f seq h (inl same) = (
  0,
  ap (λ (x : ℕ × Bytes). x.0) (sym same) ∙ (h.0 ∙ omega arith),
  omega arith,
  ap (λ (x : ℕ × Bytes). x.1) (sym same),
)
place-IsIn (g ∷ fs) f seq h (inr a) =
    let (i, number, bound, content) = place-IsIn fs f (suc seq) h.1 a in
    (suc i, omega (arith, number), omega (arith, bound), content)

Numbered-IsIn :
    (fs : List (ℕ × Bytes)) (seq i : ℕ)
    → Numbered seq fs
    → i < length fs
    → IsIn fs (seq + i, get_or (contents fs) i [])
Numbered-IsIn [] seq i h l = absurd (omega (arith, l))
Numbered-IsIn ((s, x) ∷ fs) seq zero h l = inl (ap (λ (k : ℕ). (k, x)) (h.0 ∙ omega arith))
Numbered-IsIn ((s, x) ∷ fs) seq (suc i) h l = inr (
    subst (λ (k : ℕ). IsIn fs (k, get_or (contents fs) i [])) next
      (Numbered-IsIn fs (suc seq) i h.1 (omega (arith, l))))
  where
    next : suc seq + i ≡ seq + suc i
    next = omega arith

pieces_of :
    (piece : ℕ → Bytes) (xs : List Bytes) (seq : ℕ)
    → ((i : ℕ) → i < length xs → piece (seq + i) ≡ get_or xs i [])
    → pieces piece seq (length xs) ≡ xs
unfolding pieces
pieces_of piece [] seq h = refl
pieces_of piece (x ∷ xs) seq h =
    ap (λ (y : Bytes). y ∷ pieces piece (suc seq) (length xs))
      (ap piece at_first ∙ h 0 (omega arith))
    ∙ ap (λ (ys : List Bytes). x ∷ ys)
        (pieces_of piece xs (suc seq) (λ i l. ap piece (shift i) ∙ h (suc i) (omega (arith, l))))
  where
    at_first : seq ≡ seq + 0
    at_first = omega arith

    shift : (i : ℕ) → suc seq + i ≡ seq + suc i
    shift i = omega arith

-- Every fragment of the one list is one of the other.
abbrev pub AreIn : List (ℕ × Bytes) → List (ℕ × Bytes) → Type 0
AreIn fs gs = All (IsIn gs) fs

AreIn-AreOf :
    (arrivals fs : List (ℕ × Bytes))
    → Numbered 0 fs
    → AreIn arrivals fs
    → AreOf (piece_of fs) (length fs) arrivals
AreIn-AreOf [] fs h a = tt
AreIn-AreOf (f ∷ arrivals) fs h a =
    let (i, number, bound, content) = place-IsIn fs f 0 h a.0 in
    let here : i ≡ f.0 = omega (arith, number) in
    ((content ∙ ap (piece_of fs) here, omega (arith, number, bound)), AreIn-AreOf arrivals fs h a.1)

All-IsIn {κ} :
    (P : ℕ × Bytes → Type κ) (fs : List (ℕ × Bytes)) (f : ℕ × Bytes) → All P fs → IsIn fs f → P f
All-IsIn P [] f h a = absurd a
All-IsIn P (g ∷ fs) f h (inl same) = subst P same h.0
All-IsIn P (g ∷ fs) f h (inr a) = All-IsIn P fs f h.1 a

number-IsIn :
    (k : ℕ) (f : ℕ × Bytes) (fs : List (ℕ × Bytes))
    → f.0 ≡ k
    → IsIn fs f
    → Any (λ (g : ℕ × Bytes). g.0 ≡ k) fs
number-IsIn k f [] e a = absurd a
number-IsIn k f (g ∷ fs) e (inl same) = inl (ap (λ (x : ℕ × Bytes). x.0) same ∙ e)
number-IsIn k f (g ∷ fs) e (inr a) = inr (number-IsIn k f fs e a)

receive-Numbered :
    (max_size : ℕ) (fragments arrivals : List (ℕ × Bytes))
    → length fragments < 2 ^ 64
    → Numbered 0 fragments
    → AreIn arrivals fragments
    → AreIn fragments arrivals
    → length arrivals ≤ max_size
    → (receive arrivals (new max_size)).1 ≡ contents fragments
receive-Numbered max_size fragments arrivals below numbered from all room =
    (receive-pieces (piece_of fragments) (length fragments) arrivals max_size below
        (AreIn-AreOf arrivals fragments numbered from)).2
      room complete
    ∙ (ap (pieces (piece_of fragments) 0) (sym (length-map (λ (f : ℕ × Bytes). f.1) fragments))
        ∙ pieces_of (piece_of fragments) (contents fragments) 0
            (λ i l. ap (piece_of fragments) (add_zero i)))
  where
    add_zero : (i : ℕ) → 0 + i ≡ i
    add_zero i = omega arith

    complete : (k : ℕ) → k < length fragments → Any (λ (f : ℕ × Bytes). f.0 ≡ k) arrivals
    complete k l =
        number-IsIn k (0 + k, piece_of fragments k) arrivals (add_zero k)
          (All-IsIn (IsIn arrivals) fragments (0 + k, piece_of fragments k) all
            (Numbered-IsIn fragments 0 k numbered l))

-- The data of one send, the first of its manager, is cut into fragments of a size above 0. However they
-- arrive, in any order and some of them repeatedly, at a new buffer that may hold as many fragments as
-- there are arrivals: what the buffer delivers is, put together, the data. It has fewer than 2 ^ 64 bytes.
pub receive-fragment_data :
    (size max_size : ℕ) (input : Bytes) (next_seq : ℕ) (fragments arrivals : List (ℕ × Bytes))
    → length input < 2 ^ 64
    → fragment_data 0 size input ≡ some (next_seq, fragments)
    → AreIn arrivals fragments
    → AreIn fragments arrivals
    → length arrivals ≤ max_size
    → concat (receive arrivals (new max_size)).1 ≡ input
unfolding fragment_data
receive-fragment_data zero max_size input next_seq fragments arrivals below cut from all room =
    absurd (ground (arith, cut))
receive-fragment_data (suc size) max_size input next_seq fragments arrivals below cut from all
      room =
    let uncut = cut_from (length input) (suc size) input 0 0 in
    let same : uncut ≡ fragments = ground (arith, cut) in
    let bound : length fragments ≤ length input =
      subst (λ (fs : List (ℕ × Bytes)). length fs ≤ length input) same
        (length-cut_from (length input) (suc size) input 0 0) in
    let numbered : Numbered 0 fragments =
      subst (Numbered 0) same
        (cut_from-Numbered (length input) (suc size) input 0 0 (omega arith)) in
    ap concat (receive-Numbered max_size fragments arrivals (omega arith) numbered from all room)
    ∙ (ap (λ (fs : List (ℕ × Bytes)). concat (contents fs)) (sym same)
        ∙ concat-cut_from (length input) size input 0 0 (omega arith))
