-- ===== src/Pool.antt =====
-- src/vpn/relay.rs, `ConnectionPool`: the connections of each address. A stream is known by a
-- number; whether it still has a peer, and what the calls of the system return, are arguments.
pub mod Bounds
pub mod Counted
use ll_vpn.Common.{
  ℕ, suc, ◌+◌, ◌-◌, ◌^◌, ◌%◌, Bool, true, false, not, ◌&&◌, List, [], ◌∷◌, ◌++◌, Option, none, some,
  ltb, if◌then◌else◌, length, keep, Result, ok, err, Bytes,
}
use ll_vpn.Common.HashMap
use ll_vpn.Common.HashMap.{HashMap}
use ll_vpn.NodeId.{bytes_eq}
use ll_vpn.Session.{from_secs, elapsed, u64}
use ll_vpn.Frame.{RelayError, pool_full}

-- `struct PooledConnection`; its `peer_id` is never set.
pub record PooledConnection : Type 0 where
  pub stream : ℕ
  pub last_used : ℕ
  pub in_use : Bool

unfoldable pub is_idle : ℕ → ℕ → PooledConnection → Bool
is_idle now max_idle c = not c.in_use && ltb max_idle (elapsed now c.last_used)

abbrev pub Connections : Type 0
Connections = HashMap Bytes (List PooledConnection)

-- `struct ConnectionPool`
pub record ConnectionPool : Type 0 where
  pub connections : Connections
  pub max_size : ℕ
  pub max_idle : ℕ
  pub active_count : ℕ

unfoldable pub new : ℕ → ConnectionPool
new max_size = record {
  connections = [];
  max_size = max_size;
  max_idle = from_secs 60;
  active_count = 0;
}

-- `entry(..).or_insert_with(Vec::new)`
abbrev pub or_empty : Option (List PooledConnection) → List PooledConnection
or_empty none = []
or_empty (some pool) = pool

abbrev pub pool_of : ConnectionPool → Bytes → List PooledConnection
pool_of p addr = or_empty (HashMap.get addr p.connections)

abbrev pub with_pool : ConnectionPool → Bytes → List PooledConnection → ConnectionPool
with_pool p addr pool = record p { connections = HashMap.insert addr pool p.connections }

-- `fetch_add(1)` and `fetch_sub(1)` on a `usize` of 64 bits.
abbrev pub one_more : ConnectionPool → ConnectionPool
one_more p = record p { active_count = u64 (p.active_count + 1) }

abbrev pub one_less : ConnectionPool → ConnectionPool
one_less p = record p { active_count = u64 (p.active_count + (2 ^ 64 - 1)) }

module _ (alive : ℕ → Bool) (now : ℕ) where
  -- The first connection that is free, or that is used, and has a peer: it is marked, and stamped with
  -- the time.
  unfoldable pub mark_first : Bool → List PooledConnection → Option (ℕ × List PooledConnection)
  mark_first used [] = none
  mark_first used (c ∷ pool) =
      let marked = record c { in_use = not used; last_used = now } in
      let right = if used then c.in_use else not c.in_use in
      if right && alive c.stream
      then some (c.stream, marked ∷ pool)
      else elim (mark_first used pool) [ none ↦ none | some found ↦ some (found.0, c ∷ found.1) ]

  unfoldable pub new_connection : ℕ → PooledConnection
  new_connection stream = record { stream = stream; last_used = now; in_use = true }

  -- `opened` is what connecting, setting two timeouts and cloning come to, and `cloned` what cloning a
  -- free stream does.
  unfoldable pub get_connection :
      Result RelayError ℕ
      → (ℕ → Result RelayError ℕ)
      → ConnectionPool
      → Bytes
      → ConnectionPool × Result RelayError ℕ
  unfolding new_connection
  get_connection opened cloned p addr =
      let pool = pool_of p addr in
      elim (mark_first false pool) [
        | some found ↦ (one_more (with_pool p addr found.1), cloned found.0)
        | none ↦
            if ltb (length pool) p.max_size
            then elim opened [
              | err e ↦ (with_pool p addr pool, err e)
              | ok stream ↦
                  (one_more (with_pool p addr (pool ++ (new_connection stream ∷ []))), ok stream)
            ]
            else (with_pool p addr pool, err pool_full)
      ]

  unfoldable pub return_connection : ConnectionPool → Bytes → ConnectionPool
  return_connection p addr = elim (HashMap.get addr p.connections) [
    | none ↦ one_less p
    | some pool ↦ elim (mark_first true pool) [
      | none ↦ one_less p
      | some found ↦ one_less (with_pool p addr found.1)
    ]
  ]

unfoldable pub cleanup_idle : ℕ → ConnectionPool → ConnectionPool
cleanup_idle now p = record p {
  connections = HashMap.update_all (keep (λ c. not (is_idle now p.max_idle c))) p.connections;
}

unfoldable pub clear : ConnectionPool → ConnectionPool
clear p = record p { connections = []; active_count = 0 }
