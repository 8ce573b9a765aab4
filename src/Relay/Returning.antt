-- ===== src/Relay/Returning.antt =====
-- src/vpn/relay.rs, `TcpClient::send_message`: the connection that is taken out of the pool is returned.
use ll_vpn.Common.{
  ℕ, ◌+◌, ◌≡◌, ◌⊎◌, inl, inr, refl, Bool, true, false, List, [], ◌∷◌, ◌++◌, none, some, ltb, length,
  ok, Result, arith, Bytes, All, Option-cases, Bool-cases, Result-cases,
}
use ll_vpn.Common.HashMap
use ll_vpn.Common.Sorting.{Any}
use ll_vpn.NodeId.{bytes_eq}
use ll_vpn.Session.{u64}
use ll_vpn.Frame.{RelayError, Message}
use ll_vpn.Pool.{
  PooledConnection, ConnectionPool, pool_of, one_less, mark_first, new_connection, get_connection,
  return_connection,
}
use ll_vpn.Pool.Counted.{Counted, total, busy-mark_first, busy-append_one, total-insert}
use ll_vpn.Relay.{System, send_message}

-- The connection is in use, and its stream has a peer.
abbrev pub IsReturnable : (ℕ → Bool) → PooledConnection → Type 0
IsReturnable alive c = (c.in_use ≡ true) × (alive c.stream ≡ true)

module _ (alive : ℕ → Bool) (now : ℕ) where
  mark_first-IsReturnable :
      (pool : List PooledConnection) (found : ℕ × List PooledConnection)
      → mark_first alive now true pool ≡ some found
      → Any (IsReturnable alive) pool
  unfolding mark_first
  mark_first-IsReturnable [] found h = absurd (ground (arith, h))
  mark_first-IsReturnable (c ∷ pool) found h =
      elim (Option-cases (mark_first alive now true pool)) [
        | inl e ↦ ground (arith, h, e)
        | inr (later, e) ↦ ground (arith, h, mark_first-IsReturnable pool later e)
      ]

  mark_first-none :
      (pool : List PooledConnection)
      → mark_first alive now true pool ≡ none
      → All (λ c. ¬ IsReturnable alive c) pool
  unfolding mark_first
  mark_first-none [] h = tt
  mark_first-none (c ∷ pool) h =
      (λ r. absurd (ground (arith, h, r.0, r.1)), mark_first-none pool (ground (arith, h)))

  -- A call that hands out a stream takes one connection more into use.
  total-get_connection :
      (opened : Result RelayError ℕ) (cloned : ℕ → Result RelayError ℕ) (p : ConnectionPool)
      (addr : Bytes) (stream : ℕ)
      → (get_connection alive now opened cloned p addr).1 ≡ ok stream
      → ((get_connection alive now opened cloned p addr).0.active_count ≡ u64 (p.active_count + 1))
        × (total (get_connection alive now opened cloned p addr).0.connections
            ≡ total p.connections + 1)
  unfolding get_connection new_connection
  total-get_connection opened cloned p addr stream h =
      let pool = pool_of p addr in
      elim (Option-cases (mark_first alive now false pool)) [
        | inr (found, e) ↦
            rw (e, get_connection)
              (
                refl,
                omega (
                  arith,
                  busy-mark_first alive now false pool found e,
                  total-insert addr found.1 p.connections,
                ),
              )
        | inl e ↦ elim (Bool-cases (ltb (length pool) p.max_size)) [
          | inr full ↦ absurd (ground (arith, h, e, full))
          | inl room ↦ elim (Result-cases opened) [
            | inl (f, bad) ↦ absurd (ground (arith, h, e, room, bad))
            | inr (s, good) ↦
                let c : PooledConnection = record { stream = s; last_used = now; in_use = true } in
                rw (e, get_connection, room, good)
                  (
                    refl,
                    omega (
                      arith,
                      busy-append_one pool c,
                      total-insert addr (pool ++ (c ∷ [])) p.connections,
                    ),
                  )
          ]
        ]
      ]

  return_connection-active_count :
      (p : ConnectionPool) (addr : Bytes)
      → (return_connection alive now p addr).active_count ≡ (one_less p).active_count
  unfolding return_connection
  return_connection-active_count p addr = ground arith

  -- Returning takes one out of use, where there is one to return, and none where there is none.
  total-return_connection :
      (p : ConnectionPool) (addr : Bytes)
      → (Any (IsReturnable alive) (pool_of p addr)
          × (total (return_connection alive now p addr).connections + 1 ≡ total p.connections))
        ⊎ (All (λ c. ¬ IsReturnable alive c) (pool_of p addr)
            × (total (return_connection alive now p addr).connections ≡ total p.connections))
  unfolding return_connection
  total-return_connection p addr = elim (Option-cases (HashMap.get addr p.connections)) [
    | inl e ↦ inr (rw e tt, rw (e, return_connection) refl)
    | inr (pool, e) ↦ elim (Option-cases (mark_first alive now true pool)) [
      | inl none_used ↦
          inr (rw e (mark_first-none pool none_used), rw (e, return_connection, none_used) refl)
      | inr (found, used) ↦ inl (
        rw e (mark_first-IsReturnable pool found used),
        rw (e, return_connection, used)
            (omega (
              arith,
              busy-mark_first alive now true pool found used,
              rw e at (total-insert addr found.1 p.connections),
            )),
      )
    ]
  ]

send_message-pool :
    (sys : System) (p : ConnectionPool) (addr : Bytes) (msg : Message) (stream : ℕ)
    → (get_connection sys.alive sys.now sys.opened sys.cloned p addr).1 ≡ ok stream
    → (send_message sys p addr msg).0
      ≡ return_connection sys.alive_later sys.later
          (get_connection sys.alive sys.now sys.opened sys.cloned p addr).0
          addr
unfolding send_message
send_message-pool sys p addr msg stream h = rw (send_message, h) refl

-- A message is sent over a stream that the pool hands out, and the counter of the pool was right. However
-- the writing ends, the counter afterwards is what it was. If, when the connection is returned, some
-- connection to the address is in use and has its peer, as many are in use as before, and the counter is
-- right; if none is, as after a reset during the write, one more stays in use, and the counter is wrong.
pub send_message-Counted :
    (sys : System) (p : ConnectionPool) (addr : Bytes) (msg : Message) (stream : ℕ)
    → Counted p
    → (get_connection sys.alive sys.now sys.opened sys.cloned p addr).1 ≡ ok stream
    → ((send_message sys p addr msg).0.active_count ≡ p.active_count)
      × ((Any
              (IsReturnable sys.alive_later)
              (pool_of (get_connection sys.alive sys.now sys.opened sys.cloned p addr).0 addr)
            × (total (send_message sys p addr msg).0.connections ≡ total p.connections)
            × Counted (send_message sys p addr msg).0)
          ⊎ (All
                (λ c. ¬ IsReturnable sys.alive_later c)
                (pool_of (get_connection sys.alive sys.now sys.opened sys.cloned p addr).0 addr)
              × (total (send_message sys p addr msg).0.connections ≡ total p.connections + 1)
              × (¬ Counted (send_message sys p addr msg).0)))
send_message-Counted sys p addr msg stream h got =
    let q = (get_connection sys.alive sys.now sys.opened sys.cloned p addr).0 in
    let taken = total-get_connection sys.alive sys.now sys.opened sys.cloned p addr stream got in
    let lower = return_connection-active_count sys.alive_later sys.later q addr in
    let same : (return_connection sys.alive_later sys.later q addr).active_count ≡ p.active_count =
      omega (arith, h, taken.0, lower) in
    rw (send_message-pool sys p addr msg stream got) (
      same,
      elim (total-return_connection sys.alive_later sys.later q addr) [
        | inl (some_used, less) ↦
            inl (some_used, omega (arith, taken.1, less), omega (arith, h, same, taken.1, less))
        | inr (none_used, equal) ↦ inr (
          none_used,
          omega (arith, taken.1, equal),
          λ right. omega (arith, h, same, taken.1, equal, right),
        )
      ],
    )
