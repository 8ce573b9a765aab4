-- ===== src/Election/Majority.antt =====
-- src/registry/election.rs: what the handlers keep of the votes of a node.
use ll_vpn.Common.{
  ℕ, ◌+◌, ◌/◌, ◌<◌, ◌≡◌, ◌≢◌, refl, ◌∙◌, sym, subst, ◌⊎◌, inl, inr, ite_cases, if_cases, true,
  false, List, [], ◌∷◌, ◌++◌, Option, none, some, ltb, ◌==◌, length, All, All-append, Bool-cases,
  Result, Bytes, arith,
}
use ll_vpn.Common.Sorting.{Any}
use ll_vpn.NodeId.{NodeId, NodeId-discrete}
use ll_vpn.Election.{
  RegistryStatus, follower, candidate, leader, is_candidate, is_leader, RequestPayload, VotePayload,
  ResultPayload, ChangePayload, SyncPayload, ElectionManager, ElectionMessage, Effect,
  ElectionError, stand, start_election, leading, become_leader, following, become_follower,
  reset_heartbeat_monitor, should_vote_for,
}
use ll_vpn.Election.Handle.{
  Outcome, at_term, vote_on, handle_election_request, contains, count_vote, is_for_us,
  handle_election_vote, handle_election_result, changed, handle_registry_change,
  handle_registry_sync,
}

-- No id stands twice.
abbrev pub Once : List NodeId → Type 0
Once [] = Unit {0}
Once (v ∷ vs) = (contains v vs ≡ false) × Once vs

-- A vote of a node that was received as granted to the local node in the manager's term.
abbrev pub Granted : ElectionManager → NodeId → VotePayload → Type 0
Granted m v p =
    (p.voter_id ≡ v) × (p.candidate_id ≡ m.local_id) × (p.term ≡ m.term) × (p.granted ≡ true)

-- The vote is the manager's own, or one of those received.
abbrev pub IsBacked : List VotePayload → ElectionManager → NodeId → Type 0
IsBacked received m v = (v ≡ m.local_id) ⊎ Any (Granted m v) received

pub record Inv (received : List VotePayload) (m : ElectionManager) : Type 0 where
  pub once : Once m.votes_received
  pub backed : All (IsBacked received m) m.votes_received
  pub majority : m.status ≡ leader → (length m.known_nodes + 1) / 2 < length m.votes_received

contains-append :
    (id v : NodeId) (vs : List NodeId)
    → contains id vs ≡ false
    → v ≢ id
    → contains id (vs ++ (v ∷ [])) ≡ false
unfolding contains
contains-append id v [] h n = ground (arith, n)
contains-append id v (x ∷ vs) h n = ground (arith, h, n, contains-append id v vs)

head_absent :
    (id x : NodeId) (vs : List NodeId)
    → contains id (x ∷ vs) ≡ false
    → (x ≢ id) × (contains id vs ≡ false)
unfolding contains
head_absent id x vs h = elim (NodeId-discrete x id) [
  | yes same ↦ absurd (ground (arith, h, same))
  | no other ↦ (other, ground (arith, h, other))
]

Once-append :
    (vs : List NodeId) (v : NodeId) → Once vs → contains v vs ≡ false → Once (vs ++ (v ∷ []))
unfolding contains
Once-append [] v o h = (refl, tt)
Once-append (x ∷ vs) v o h =
    let (other, absent) = head_absent v x vs h in
    (contains-append x v vs o.0 (λ e. other (sym e)), Once-append vs v o.1 absent)

-- What one more received message does not take away.
more-IsBacked :
    (p : VotePayload) (received : List VotePayload) (m : ElectionManager) (vs : List NodeId)
    → All (IsBacked received m) vs
    → All (IsBacked (p ∷ received) m) vs
more-IsBacked p received m [] h = tt
more-IsBacked p received m (v ∷ vs) h =
    (elim h.0 [ inl own ↦ inl own | inr a ↦ inr (inr a) ], more-IsBacked p received m vs h.1)

-- A follower without votes.
pub follower-Inv :
    (received : List VotePayload) (m : ElectionManager)
    → m.status ≡ follower
    → m.votes_received ≡ []
    → Inv received m
follower-Inv received m f e = record {
  once = rw e tt;
  backed = rw e tt;
  majority = λ l. absurd (apart (sym f ∙ l));
}
  where
    apart : follower ≡ leader → ⊥
    apart e = ground (arith, e)

become_follower-fields :
    (now term : ℕ) (id : Option NodeId) (m : ElectionManager)
    → ((become_follower now term id m).0.status ≡ follower)
      × ((become_follower now term id m).0.votes_received ≡ [])
unfolding become_follower following reset_heartbeat_monitor
become_follower-fields now term none m = (refl, refl)
become_follower-fields now term (some id) m = (refl, refl)

become_follower-Inv :
    (received : List VotePayload) (now term : ℕ) (id : Option NodeId) (m : ElectionManager)
    → Inv received (become_follower now term id m).0
become_follower-Inv received now term id m =
    let f = become_follower-fields now term id m in
    follower-Inv received (become_follower now term id m).0 f.0 f.1

at_term-Inv :
    (sha256 : Bytes → Bytes) (now term : ℕ) (received : List VotePayload) (m : ElectionManager)
    → Inv received m
    → Inv received (at_term sha256 now term m).0
unfolding at_term
at_term-Inv sha256 now term received m v =
    if_cases (λ (o : ElectionManager × List Effect). Inv received o.0) (ltb m.term term) _ _
      (λ later. become_follower-Inv received now term none m) (λ same. v)

vote_on-Inv :
    (sha256 : Bytes → Bytes) (now : ℕ) (r : RequestPayload) (received : List VotePayload)
    (m : ElectionManager)
    → Inv received m
    → Inv received (vote_on sha256 now r m).0
unfolding vote_on
vote_on-Inv sha256 now r received m v =
    if_cases (λ (o : ElectionManager × ElectionMessage). Inv received o.0)
      (should_vote_for sha256 r.candidate_id r.term m) _ _
      (λ granted. record { once = v.once; backed = voted; majority = v.majority }) (λ denied. v)
  where
    voted : All (IsBacked received (record m { voted_for = some r.candidate_id })) m.votes_received
    voted = v.backed

pub request-Inv :
    (sha256 : Bytes → Bytes) (now : ℕ) (r : RequestPayload) (received : List VotePayload)
    (m : ElectionManager)
    → Inv received m
    → Inv received (handle_election_request sha256 now r m).0
unfolding handle_election_request
request-Inv sha256 now r received m v =
    if_cases (λ (o : Outcome). Inv received o.0) (ltb r.term m.term) _ _ (λ stale. v)
      (λ fresh.
        vote_on-Inv sha256 now r received (at_term sha256 now r.term m).0
          (at_term-Inv sha256 now r.term received m v))

more-Inv :
    (p : VotePayload) (received : List VotePayload) (m : ElectionManager)
    → Inv received m
    → Inv (p ∷ received) m
more-Inv p received m v = record {
  once = v.once;
  backed = more-IsBacked p received m m.votes_received v.backed;
  majority = v.majority;
}

is_candidate_only : (s : RegistryStatus) → is_candidate s ≡ true → s ≡ candidate
unfolding is_candidate
is_candidate_only candidate h = refl
is_candidate_only follower h = absurd (ground (arith, h))
is_candidate_only leader h = absurd (ground (arith, h))

is_for_us-Granted :
    (p : VotePayload) (m : ElectionManager)
    → is_for_us p m ≡ true
    → (m.status ≡ candidate) × Granted m p.voter_id p
unfolding is_for_us
is_for_us-Granted p m h = elim (NodeId-discrete p.candidate_id m.local_id) [
  | yes same ↦
      let stands : is_candidate m.status ≡ true = ground (arith, h) in
      (is_candidate_only m.status stands, (refl, same, ground (arith, h), ground (arith, h, same)))
  | no other ↦ absurd (ground (arith, h, other))
]

candidate-not_leader : (m : ElectionManager) → m.status ≡ candidate → m.status ≢ leader
candidate-not_leader m c l = ground (arith, c, l)

count_vote-Inv :
    (p : VotePayload) (received : List VotePayload) (m : ElectionManager)
    → Inv received m
    → (m.status ≡ candidate) × Granted m p.voter_id p
    → contains p.voter_id m.votes_received ≡ false
    → Inv (p ∷ received) (count_vote p.voter_id m).0
unfolding count_vote become_leader leading
count_vote-Inv p received m v g absent =
    if_cases (λ (o : ElectionManager × List Effect). Inv (p ∷ received) o.0)
      (ltb ((length m.known_nodes + 1) / 2) (length (m.votes_received ++ (p.voter_id ∷ [])))) _ _
      (λ won. record { once = once; backed = backed; majority = λ l. ground (arith, won) })
      (λ short. record {
        once = once;
        backed = backed;
        majority = λ l. absurd (candidate-not_leader m g.0 l);
      })
  where
    once : Once (m.votes_received ++ (p.voter_id ∷ []))
    once = Once-append m.votes_received p.voter_id v.once absent

    backed : All (IsBacked (p ∷ received) m) (m.votes_received ++ (p.voter_id ∷ []))
    backed =
        All-append (IsBacked (p ∷ received) m) m.votes_received (p.voter_id ∷ [])
          (more-IsBacked p received m m.votes_received v.backed) (inr (inl g.1), tt)

pub vote-Inv :
    (p : VotePayload) (received : List VotePayload) (m : ElectionManager)
    → Inv received m
    → Inv (p ∷ received) (handle_election_vote p m).0
unfolding handle_election_vote
vote-Inv p received m v = elim (Bool-cases (is_for_us p m)) [
  | inl ours ↦ elim (Bool-cases (contains p.voter_id m.votes_received)) [
    | inl again ↦
        subst (λ (n : ElectionManager). Inv (p ∷ received) n) (rw (ours, again) refl)
          (more-Inv p received m v)
    | inr first ↦
        subst (λ (n : ElectionManager). Inv (p ∷ received) n) (rw (ours, first) refl)
          (count_vote-Inv p received m v (is_for_us-Granted p m ours) first)
  ]
  | inr other ↦
      subst (λ (n : ElectionManager). Inv (p ∷ received) n) (rw other refl)
        (more-Inv p received m v)
]

pub result-Inv :
    (now : ℕ) (r : ResultPayload) (received : List VotePayload) (m : ElectionManager)
    → Inv received m
    → Inv received (handle_election_result now r m).0
unfolding handle_election_result
result-Inv now r received m v =
    if_cases (λ (o : Outcome). Inv received o.0) (ltb r.term m.term) _ _ (λ stale. v)
      (λ fresh.
        ite_cases (λ (o : Outcome). Inv received o.0) (NodeId-discrete r.leader_id m.local_id) _ _
          (λ own. v) (λ other. become_follower-Inv received now r.term (some r.leader_id) m))

pub change-Inv :
    (now : ℕ) (c : ChangePayload) (received : List VotePayload) (m : ElectionManager)
    → Inv received m
    → Inv received (handle_registry_change now c m).0
unfolding handle_registry_change
change-Inv now c received m v =
    if_cases (λ (o : Outcome). Inv received o.0) (ltb c.term m.term) _ _ (λ stale. v)
      (λ fresh.
        ite_cases (λ (o : Outcome). Inv received o.0) (NodeId-discrete c.registry_id m.local_id) _ _
          (λ own. v)
          (λ other. become_follower-Inv received now c.term (some c.registry_id) (changed now c m)))

pub sync-Inv :
    (now : ℕ) (registry_data : Bytes) (s : SyncPayload) (received : List VotePayload)
    (m : ElectionManager)
    → Inv received m
    → Inv received (handle_registry_sync now registry_data s m).0
unfolding handle_registry_sync
sync-Inv now registry_data s received m v =
    if_cases (λ (o : Outcome). Inv received o.0) (is_leader m.status) _ _
      (λ leads.
        if_cases (λ (o : Outcome). Inv received o.0) (ltb m.term s.term) _ _
          (λ later. become_follower-Inv received now s.term (some s.requester_id) m) (λ same. v))
      (λ follows. v)

pub start_election-Inv :
    (received : List VotePayload) (m : ElectionManager)
    → Inv received m
    → Inv received (start_election m).0
unfolding start_election stand contains
start_election-Inv received m v =
    if_cases
      (λ (o : ElectionManager × List Effect × Result ElectionError (Unit {0})). Inv received o.0)
      (is_candidate m.status) _ _ (λ stands. v)
      (λ idle.
        if_cases
          (λ (o : ElectionManager × List Effect × Result ElectionError (Unit {0})).
            Inv received o.0)
          (length m.known_nodes == 0) _ _ (λ alone. v)
          (λ peers. record {
            once = (refl, tt);
            backed = (inl refl, tt);
            majority = λ l. absurd (ground (arith, l));
          }))
