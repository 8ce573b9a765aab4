-- ===== src/Session/Counters.antt =====
-- src/vpn/session.rs, the counters: `next_send_counter` and `verify_recv_counter` over many calls.
use ll_vpn.Common.{
  ℕ, zero, suc, ◌+◌, ◌-◌, ◌^◌, ◌≤◌, ◌<◌, ◌≡◌, ◌≢◌, inl, inr, List, [], ◌∷◌, ok, err, arith, ltb,
  Bool-cases, All,
}
use ll_vpn.Session.{Session, next_send_counter, verify_recv_counter, u64}

-- The session after a number of sends.
unfoldable pub after_sends : ℕ → ℕ → Session → Session
after_sends zero now s = s
after_sends (suc n) now s = (next_send_counter now (after_sends n now s)).0

after_sends-counter :
    (n now : ℕ) (s : Session)
    → s.send_counter < 2 ^ 64
    → (after_sends n now s).send_counter ≡ u64 (s.send_counter + n)
unfolding after_sends next_send_counter
after_sends-counter zero now s h = omega arith
after_sends-counter (suc n) now s h = omega (arith, after_sends-counter n now s h)

-- Two sends of a session whose counter is a `u64` never have the same counter, as long as fewer than 2
-- ^ 64 lie from the one to the other.
pub send_counter_unique :
    (i j now : ℕ) (s : Session)
    → s.send_counter < 2 ^ 64
    → i < j
    → j < i + 2 ^ 64
    → (next_send_counter now (after_sends i now s)).1
      ≢ (next_send_counter now (after_sends j now s)).1
unfolding next_send_counter
send_counter_unique i j now s h before near e =
    omega (arith, e, after_sends-counter i now s h, after_sends-counter j now s h)

-- The counters of a list of arrivals, each with its time, that the session accepts.
unfoldable pub accepted : Session → List (ℕ × ℕ) → List ℕ
accepted s [] = []
accepted s ((now, counter) ∷ rest) =
    let (s', r) = verify_recv_counter now s counter in
    let later = accepted s' rest in elim r [ ok _ ↦ counter ∷ later | err _ ↦ later ]

-- Each number is above the one before it, and the first is at least the bound.
abbrev pub Ascending : ℕ → List ℕ → Type 0
Ascending low [] = Unit {0}
Ascending low (c ∷ cs) = (low ≤ c) × Ascending (suc c) cs

-- What arrives in any order is accepted in strictly ascending order, from the expected counter on, so
-- that nothing is accepted twice, as long as the largest `u64` is not among the counters.
pub accepted-Ascending :
    (s : Session) (arrivals : List (ℕ × ℕ))
    → All (λ a. a.1 < 2 ^ 64 - 1) arrivals
    → Ascending s.recv_counter (accepted s arrivals)
unfolding accepted verify_recv_counter
accepted-Ascending s [] h = tt
accepted-Ascending s ((now, counter) ∷ rest) h =
    let ih = accepted-Ascending (verify_recv_counter now s counter).0 rest h.1 in
    elim (Bool-cases (ltb counter s.recv_counter)) [
      | inl stale ↦ ground (arith, ih)
      | inr fresh ↦ ground (arith, ih)
    ]

-- For a session whose expected counter is a `u64`: the largest `u64` is accepted, and after it every
-- counter is.
pub verify_recv_counter_reset :
    (now later : ℕ) (s : Session) (counter : ℕ)
    → s.recv_counter < 2 ^ 64
    → ((verify_recv_counter now s (2 ^ 64 - 1)).1 ≡ ok tt)
      × ((verify_recv_counter later (verify_recv_counter now s (2 ^ 64 - 1)).0 counter).1 ≡ ok tt)
unfolding verify_recv_counter
verify_recv_counter_reset now later s counter h = ground arith
