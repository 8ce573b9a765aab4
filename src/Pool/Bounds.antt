-- ===== src/Pool/Bounds.antt =====
-- src/vpn/relay.rs, `ConnectionPool`: the number of connections for an address.
use ll_vpn.Common.{
  ℕ, ◌≤◌, ◌≡◌, Bool, true, false, List, [], ◌∷◌, ◌++◌, some, inl, inr, ltb, length, length-append,
  Result, arith, Bytes, All, Option-cases, Bool-cases, Result-cases,
}
use ll_vpn.Common.HashMap
use ll_vpn.Common.HashMap.{HashMap}
use ll_vpn.NodeId.{bytes_eq}
use ll_vpn.Frame.{RelayError}
use ll_vpn.Pool.{
  PooledConnection, Connections, ConnectionPool, or_empty, pool_of, mark_first, new_connection,
  get_connection,
}

-- Every address has a pool of at most a given size.
abbrev pub Bounded : ℕ → Connections → Type 0
Bounded n m = All (λ e. length e.1 ≤ n) m

insert-Bounded :
    (n : ℕ) (addr : Bytes) (pool : List PooledConnection) (m : Connections)
    → length pool ≤ n
    → Bounded n m
    → Bounded n (HashMap.insert addr pool m)
unfolding HashMap.insert
insert-Bounded n addr pool [] fits b = (fits, tt)
insert-Bounded n addr pool ((a, q) ∷ m) fits b =
    ground (arith, insert-Bounded n addr pool m fits b.1, b.0)

get-Bounded :
    (n : ℕ) (addr : Bytes) (m : Connections)
    → Bounded n m
    → length (or_empty (HashMap.get addr m)) ≤ n
unfolding HashMap.get
get-Bounded n addr [] b = omega arith
get-Bounded n addr ((a, q) ∷ m) b = ground (arith, get-Bounded n addr m b.1, b.0)

module _ (alive : ℕ → Bool) (now : ℕ) where
  length-mark_first :
      (used : Bool) (pool : List PooledConnection) (found : ℕ × List PooledConnection)
      → mark_first alive now used pool ≡ some found
      → length found.1 ≡ length pool
  unfolding mark_first
  length-mark_first used [] found h = absurd (ground arith)
  length-mark_first used (c ∷ pool) found h = elim (Option-cases (mark_first alive now used pool)) [
    | inl e ↦ ground arith
    | inr (later, e) ↦ ground (arith, length-mark_first used pool later e)
  ]

  -- An address gets no more than `max_size` connections by any call of `get_connection`, whatever the
  -- system answers.
  pub get_connection-Bounded :
      (opened : Result RelayError ℕ) (cloned : ℕ → Result RelayError ℕ) (p : ConnectionPool)
      (addr : Bytes)
      → Bounded p.max_size p.connections
      → Bounded p.max_size (get_connection alive now opened cloned p addr).0.connections
  unfolding get_connection new_connection
  get_connection-Bounded opened cloned p addr b =
      let pool = pool_of p addr in
      let fits = get-Bounded p.max_size addr p.connections b in
      elim (Option-cases (mark_first alive now false pool)) [
        | inr (found, e) ↦
            rw (e, get_connection)
              (insert-Bounded p.max_size addr found.1 p.connections
                (omega (arith, length-mark_first false pool found e, fits)) b)
        | inl e ↦ elim (Bool-cases (ltb (length pool) p.max_size)) [
          | inr full ↦
              rw (e, get_connection, full)
                (insert-Bounded p.max_size addr pool p.connections fits b)
          | inl room ↦ elim (Result-cases opened) [
            | inl (f, bad) ↦
                rw (e, get_connection, room, bad)
                  (insert-Bounded p.max_size addr pool p.connections fits b)
            | inr (s, good) ↦
                let c : PooledConnection = record { stream = s; last_used = now; in_use = true } in
                rw (e, get_connection, room, good)
                  (insert-Bounded p.max_size addr (pool ++ (c ∷ [])) p.connections
                    (ground (arith, length-append pool (c ∷ []))) b)
          ]
        ]
      ]
