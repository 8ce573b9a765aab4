-- ===== src/Dht/NodeList/RoundTrip.antt =====
-- src/vpn/dht.rs, `encode_node_list` and `decode_node_list` after each other.
use mathlib.Core.List.{append_assoc}
use ll_vpn.Common.{
  ℕ, zero, suc, ◌+◌, ◌≤◌, ◌≡◌, refl, ap, sym, ◌∙◌, true, inl, inr, List, [], ◌∷◌, ◌++◌, ltb, length,
  length-append, length-take, take, drop, min, Bytes, be_bytes, from_be, length-be_bytes,
  from_be-be_bytes, take-append_of, drop-append_of, take_all, drop-drop, arith, All, All-take,
  All-drop, IsByte, ge→ltb, ltb→ge, Bool-cases,
}
use ll_vpn.NodeId.{NodeId, IsNodeId, from_bytes}
use ll_vpn.Dht.NodeList.{
  is_utf8, utf8_or_default, u16_max, encode_entries, encode_node_list, decode_entries,
  decode_node_list,
}

-- A contact that the format can carry.
pub record IsContact (n : NodeId × Bytes) : Type 0 where
  pub id : IsNodeId n.0
  pub text : is_utf8 n.1 ≡ true
  pub short : length n.1 ≤ u16_max

module _ (id : NodeId) (addr rest : Bytes) (h : IsContact (id, addr)) where
  abbrev entry : Bytes
  entry = id.bytes ++ (be_bytes 2 (length addr) ++ (addr ++ rest))

  length-entry : length entry ≡ 34 + length addr + length rest
  length-entry = omega (
    arith,
    h.id.size,
    length-append id.bytes (be_bytes 2 (length addr) ++ (addr ++ rest)),
    length-append (be_bytes 2 (length addr)) (addr ++ rest),
    length-append addr rest,
    length-be_bytes 2 (length addr),
  )

  entry_id : take 32 entry ≡ id.bytes
  entry_id = take-append_of 32 id.bytes _ h.id.size

  behind_id : drop 32 entry ≡ be_bytes 2 (length addr) ++ (addr ++ rest)
  behind_id = drop-append_of 32 id.bytes _ h.id.size

  entry_addr_len : from_be (take 2 (drop 32 entry)) ≡ length addr
  entry_addr_len =
      rw
        (
          behind_id,
          take-append_of 2 (be_bytes 2 (length addr)) (addr ++ rest) (length-be_bytes 2 _),
        )
        (from_be-be_bytes 2 (length addr) (omega (arith, h.short)))

  behind_header : drop 34 entry ≡ addr ++ rest
  behind_header =
      sym (drop-drop 32 2 entry)
      ∙ ap (drop 2) behind_id
      ∙ drop-append_of 2 (be_bytes 2 (length addr)) (addr ++ rest) (length-be_bytes 2 _)

  decode_entry : (n : ℕ) → decode_entries (suc n) entry ≡ (id, addr) ∷ decode_entries n rest
  unfolding decode_entries from_bytes utf8_or_default
  decode_entry n = rw (
    entry_addr_len,
    behind_header,
    ge→ltb (length entry) 34 (omega (arith, length-entry)),
    ge→ltb (length (addr ++ rest)) (length addr) (omega (arith, length-append addr rest)),
    entry_id,
    take-append_of (length addr) addr rest refl,
    drop-append_of (length addr) addr rest refl,
    h.text,
  )

-- The contacts behind the count, each with its own bytes.
encode_entries-cons :
    (id : NodeId) (addr rest : Bytes) (nodes : List (NodeId × Bytes))
    → length addr ≤ u16_max
    → encode_entries ((id, addr) ∷ nodes) ++ rest
      ≡ id.bytes ++ (be_bytes 2 (length addr) ++ (addr ++ (encode_entries nodes ++ rest)))
unfolding encode_entries
encode_entries-cons id addr rest nodes short =
    let fits : min (length addr) u16_max ≡ length addr = omega arith in
    rw (fits, take_all (length addr) addr (omega arith)) (simp append_assoc)

decode_entries-encode_entries :
    (nodes : List (NodeId × Bytes)) (rest : Bytes)
    → All IsContact nodes
    → decode_entries (length nodes) (encode_entries nodes ++ rest) ≡ nodes
decode_entries-encode_entries [] rest h = unfold decode_entries in refl
decode_entries-encode_entries ((id, addr) ∷ nodes) rest h =
    ap (decode_entries (suc (length nodes))) (encode_entries-cons id addr rest nodes h.0.short)
    ∙ decode_entry id addr (encode_entries nodes ++ rest) h.0 (length nodes)
    ∙ ap (◌∷◌ (id, addr)) (decode_entries-encode_entries nodes rest h.1)

-- A list of at most 65535 contacts, each with an id of 32 bytes and a valid text of at most 65535 bytes,
-- is read back as it was, whatever bytes follow it.
pub decode_node_list-encode_node_list :
    (nodes : List (NodeId × Bytes)) (rest : Bytes)
    → All IsContact nodes
    → length nodes ≤ u16_max
    → decode_node_list (encode_node_list nodes ++ rest) ≡ nodes
unfolding decode_node_list encode_node_list
decode_node_list-encode_node_list nodes rest h few =
    let count = length nodes in
    let fits : min count u16_max ≡ count = omega arith in
    let head = be_bytes 2 count in
    let size : length head ≡ 2 = length-be_bytes 2 count in
    let body = encode_entries nodes ++ rest in
    rw
      (
        fits,
        take_all count nodes (omega arith),
        append_assoc head (encode_entries nodes) rest,
        ge→ltb (length (head ++ body)) 2 (omega (arith, size, length-append head body)),
        take-append_of 2 head body size,
        drop-append_of 2 head body size,
        from_be-be_bytes 2 count (omega arith),
      )
      (decode_entries-encode_entries nodes rest h)

decode_entries_ids :
    (n : ℕ) (rest : Bytes) → All IsByte rest → All (λ e. IsNodeId e.0) (decode_entries n rest)
unfolding decode_entries from_bytes
decode_entries_ids zero rest h = tt
decode_entries_ids (suc n) rest h =
    let len = from_be (take 2 (drop 32 rest)) in
    let behind = drop 34 rest in
    let ih =
      decode_entries_ids n (drop len behind)
        (All-drop IsByte len behind (All-drop IsByte 34 rest h)) in
    elim (Bool-cases (ltb (length rest) 34)) [
      | inl short ↦ rw short tt
      | inr long ↦ elim (Bool-cases (ltb (length behind) len)) [
        | inl cut ↦ rw (long, cut) tt
        | inr whole ↦
            rw (long, whole)
              (
                record {
                  size = omega (arith, length-take 32 rest, ltb→ge (length rest) 34 long);
                  in_range = All-take IsByte 32 rest h;
                },
                ih,
              )
      ]
    ]

-- Every id in a list that is read from bytes is one of 32 bytes.
pub decode_node_list_ids :
    (bytes : Bytes) → All IsByte bytes → All (λ e. IsNodeId e.0) (decode_node_list bytes)
unfolding decode_node_list
decode_node_list_ids bytes h = elim (Bool-cases (ltb (length bytes) 2)) [
  | inl short ↦ rw short tt
  | inr long ↦ rw long (decode_entries_ids _ (drop 2 bytes) (All-drop IsByte 2 bytes h))
]
