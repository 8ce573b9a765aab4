-- ===== src/Pool/Counted.antt =====
-- src/vpn/relay.rs, `ConnectionPool`: the counter of active connections against those that are in use.
use ll_vpn.Common.{
  ℕ, ◌+◌, ◌≡◌, ◌≢◌, refl, Bool, true, false, not, List, [], ◌∷◌, ◌++◌, none, some, inl, inr, ltb,
  length, keep, Result, arith, Bytes, Option-cases, Bool-cases, Result-cases, if◌then◌else◌,
}
use ll_vpn.Common.HashMap
use ll_vpn.Common.HashMap.{HashMap}
use ll_vpn.NodeId.{bytes_eq}
use ll_vpn.Session.{u64}
use ll_vpn.Frame.{RelayError}
use ll_vpn.Pool.{
  PooledConnection, Connections, ConnectionPool, is_idle, or_empty, pool_of, mark_first,
  new_connection, get_connection, return_connection, cleanup_idle,
}

-- The connections in use, of an address and of all.
abbrev pub busy : List PooledConnection → ℕ
busy [] = 0
busy (c ∷ pool) = (if c.in_use then 1 else 0) + busy pool

abbrev pub total : Connections → ℕ
total [] = 0
total ((a, pool) ∷ m) = busy pool + total m

-- The counter says how many connections are in use.
abbrev pub Counted : ConnectionPool → Type 0
Counted p = p.active_count ≡ u64 (total p.connections)

pub busy-append_one :
    (pool : List PooledConnection) (c : PooledConnection)
    → busy (pool ++ (c ∷ [])) ≡ busy pool + (if c.in_use then 1 else 0)
busy-append_one [] c = ground arith
busy-append_one (x ∷ pool) c = ground (arith, busy-append_one pool c)

pub total-insert :
    (addr : Bytes) (pool : List PooledConnection) (m : Connections)
    → total (HashMap.insert addr pool m) + busy (or_empty (HashMap.get addr m))
      ≡ total m + busy pool
unfolding HashMap.insert HashMap.get
total-insert addr pool [] = omega arith
total-insert addr pool ((a, q) ∷ m) = ground (arith, total-insert addr pool m)

module _ (alive : ℕ → Bool) (now : ℕ) where
  -- Marking takes a connection from one side to the other.
  pub busy-mark_first :
      (used : Bool) (pool : List PooledConnection) (found : ℕ × List PooledConnection)
      → mark_first alive now used pool ≡ some found
      → busy found.1 + (if used then 1 else 0) ≡ busy pool + (if used then 0 else 1)
  unfolding mark_first
  busy-mark_first used [] found h = absurd (ground arith)
  busy-mark_first used (c ∷ pool) found h = elim (Option-cases (mark_first alive now used pool)) [
    | inl e ↦ ground arith
    | inr (later, e) ↦ ground (arith, busy-mark_first used pool later e)
  ]

  busy-keep :
      (max_idle : ℕ) (pool : List PooledConnection)
      → busy (keep (λ c. not (is_idle now max_idle c)) pool) ≡ busy pool
  unfolding is_idle
  busy-keep max_idle [] = refl
  busy-keep max_idle (c ∷ pool) = ground (arith, busy-keep max_idle pool)

  total-cleanup :
      (max_idle : ℕ) (m : Connections)
      → total (HashMap.update_all (keep (λ c. not (is_idle now max_idle c))) m) ≡ total m
  unfolding HashMap.update_all
  total-cleanup max_idle [] = refl
  total-cleanup max_idle ((a, pool) ∷ m) =
      omega (arith, total-cleanup max_idle m, busy-keep max_idle pool)

  -- The counter stays right through every call of `get_connection`, whatever the system answers.
  pub get_connection-Counted :
      (opened : Result RelayError ℕ) (cloned : ℕ → Result RelayError ℕ) (p : ConnectionPool)
      (addr : Bytes)
      → Counted p
      → Counted (get_connection alive now opened cloned p addr).0
  unfolding get_connection new_connection
  get_connection-Counted opened cloned p addr h =
      let pool = pool_of p addr in
      elim (Option-cases (mark_first alive now false pool)) [
        | inr (found, e) ↦
            rw (e, get_connection)
              (omega (
                arith,
                h,
                busy-mark_first false pool found e,
                total-insert addr found.1 p.connections,
              ))
        | inl e ↦ elim (Bool-cases (ltb (length pool) p.max_size)) [
          | inr full ↦
              rw (e, get_connection, full) (omega (arith, h, total-insert addr pool p.connections))
          | inl room ↦ elim (Result-cases opened) [
            | inl (f, bad) ↦
                rw (e, get_connection, room, bad)
                  (omega (arith, h, total-insert addr pool p.connections))
            | inr (s, good) ↦
                let c : PooledConnection = record { stream = s; last_used = now; in_use = true } in
                rw (e, get_connection, room, good)
                  (omega (
                    arith,
                    h,
                    busy-append_one pool c,
                    total-insert addr (pool ++ (c ∷ [])) p.connections,
                  ))
          ]
        ]
      ]

  cleanup_idle-Counted : (p : ConnectionPool) → Counted p → Counted (cleanup_idle now p)
  unfolding cleanup_idle
  cleanup_idle-Counted p h = omega (arith, h, total-cleanup p.max_idle p.connections)

  -- `return_connection` keeps the counter right where it finds a connection in use, and never where it
  -- finds none: then the counter is one too low.
  pub return_connection-Counted :
      (p : ConnectionPool) (addr : Bytes)
      → Counted p
      → (mark_first alive now true (pool_of p addr) ≢ none
          → Counted (return_connection alive now p addr))
        × (mark_first alive now true (pool_of p addr) ≡ none
            → ¬ Counted (return_connection alive now p addr))
  unfolding return_connection mark_first
  return_connection-Counted p addr h = elim (Option-cases (HashMap.get addr p.connections)) [
    | inl e ↦ rw (e, return_connection) ((λ n. absurd (n refl)), λ n. omega (arith, h))
    | inr (pool, e) ↦ elim (Option-cases (mark_first alive now true pool)) [
      | inl none_used ↦
          rw (e, return_connection, none_used) ((λ n. absurd (n refl)), λ n. omega (arith, h))
      | inr (found, used) ↦
          rw (e, return_connection, used)
            (
              λ _. omega (
                arith,
                h,
                busy-mark_first true pool found used,
                rw e at (total-insert addr found.1 p.connections),
              ),
              λ n. absurd (ground arith),
            )
    ]
  ]
