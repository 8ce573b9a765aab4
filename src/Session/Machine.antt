-- ===== src/Session/Machine.antt =====
-- src/vpn/session.rs, `Session::transition` against the diagram INIT → HANDSHAKE → ESTABLISHED →
-- CLOSING → CLOSED that the file's head draws.
use ll_vpn.Common.{
  ℕ, suc, ◌+◌, ◌≤◌, ◌<◌, ◌≡◌, refl, ◌⊎◌, inl, inr, List, [], ◌∷◌, ok, err, arith, true, false,
  Bool-cases,
}
use ll_vpn.Session.{
  SessionState, init, handshake, established, closing, closed, Session, transition, touch,
  invalid_state, cannot_transition, contains, valid_transitions,
}

-- The diagram, with the two ways to give up.
infix 40 ◌⟶◌
pub data ◌⟶◌ : SessionState → SessionState → Type 0 where
  begin : init ⟶ handshake
  establish : handshake ⟶ established
  close : established ⟶ closing
  finish : closing ⟶ closed
  abandon : init ⟶ closed
  give_up : handshake ⟶ closed

edge_allowed : {a b : SessionState} → a ⟶ b → contains (valid_transitions a) b ≡ true
unfolding contains valid_transitions
edge_allowed begin = refl
edge_allowed establish = refl
edge_allowed close = refl
edge_allowed finish = refl
edge_allowed abandon = refl
edge_allowed give_up = refl

allowed_edge : (a b : SessionState) → contains (valid_transitions a) b ≡ true → a ⟶ b
unfolding contains valid_transitions
allowed_edge a b h = grind (arith, begin, establish, close, finish, abandon, give_up)

no_edge : (a b : SessionState) → contains (valid_transitions a) b ≡ false → ¬ (a ⟶ b)
no_edge a b refused e = absurd (ground (arith, refused, edge_allowed e))

-- Where the diagram has the edge that is asked for, the session gets the new state and the time of the call
-- and keeps all else; where it has none, the session stays as it is, and the error names the two states.
pub transition_iff :
    (now : ℕ) (s : Session) (t : SessionState)
    → ((s.state ⟶ t) × (transition now s t ≡ (record s { state = t; last_active = now }, ok tt)))
      ⊎ ((¬ (s.state ⟶ t))
          × (transition now s t ≡ (s, err (invalid_state (cannot_transition s.state t)))))
unfolding transition touch
transition_iff now s t = elim (Bool-cases (contains (valid_transitions s.state) t)) [
  | inl edge ↦ inl (allowed_edge s.state t edge, rw (transition, edge) refl)
  | inr refused ↦ inr (no_edge s.state t refused, rw (transition, refused) refl)
]

-- How far along the diagram a state is.
abbrev pub rank : SessionState → ℕ
rank init = 0
rank handshake = 1
rank established = 2
rank closing = 3
rank closed = 4

edge_up : {s t : SessionState} → s ⟶ t → rank s < rank t
edge_up begin = omega arith
edge_up establish = omega arith
edge_up close = omega arith
edge_up finish = omega arith
edge_up abandon = omega arith
edge_up give_up = omega arith

-- A list of requests, each with its time: the session after them, and how many were granted.
unfoldable pub request_all : Session → List (ℕ × SessionState) → Session × ℕ
request_all s [] = (s, 0)
request_all s ((now, t) ∷ rest) =
    let (s', r) = transition now s t in
    let (last, granted) = request_all s' rest in
    (last, elim r [ ok _ ↦ suc granted | err _ ↦ granted ])

-- Whatever is asked for, each granted request moves the session up by a rank at least, so no session
-- makes more than four transitions.
pub request_all_bounded :
    (s : Session) (rs : List (ℕ × SessionState))
    → rank s.state + (request_all s rs).1 ≤ rank (request_all s rs).0.state
unfolding request_all transition
request_all_bounded s [] = omega arith
request_all_bounded s ((now, t) ∷ rest) =
    let ih = request_all_bounded (transition now s t).0 rest in
    elim (Bool-cases (contains (valid_transitions s.state) t)) [
      | inl edge ↦
          let up : rank s.state < rank t = edge_up (allowed_edge _ _ edge) in ground (arith, ih)
      | inr refused ↦ ground (arith, ih)
    ]
