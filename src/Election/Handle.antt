-- ===== src/Election/Handle.antt =====
-- src/registry/election.rs, the handlers of messages, behind the parsing of their payloads. A payload that
-- does not parse is `none`.
use ll_vpn.Common.{
  ℕ, ◌+◌, ◌/◌, ite, Bool, true, false, List, [], ◌∷◌, ◌++◌, Option, none, some, ltb, ◌==◌,
  if◌then◌else◌, length, Result, ok, err, Bytes,
}
use ll_vpn.NodeId.{NodeId, NodeId-discrete}
use ll_vpn.Election.{
  is_candidate, is_leader, ElectionMessageType, election_request, election_vote, election_result,
  registry_change, registry_sync, type_from_u8, RequestPayload, VotePayload, ResultPayload,
  ChangePayload, SyncPayload, SyncResponse, ElectionError, serialize_error, no_relay_manager,
  send_failed, ElectionMessage, vote_msg, sync_msg, sync_response_msg, Effect, sent, loaded,
  ElectionManager, control_registry, become_leader, become_follower, should_vote_for,
}

-- The state, the effects, and the reply.
abbrev pub Outcome : Type 0
Outcome = ElectionManager × List Effect × Result ElectionError (Option ElectionMessage)

unfoldable pub build_vote_message : ElectionManager → NodeId → ℕ → Bool → ElectionMessage
build_vote_message m candidate_id term granted =
    vote_msg (record {
      voter_id = m.local_id;
      candidate_id = candidate_id;
      term = term;
      granted = granted;
    })

module _ (sha256 : Bytes → Bytes) (now : ℕ) where
  -- The node at the request's term: a later one makes it a follower.
  unfoldable pub at_term : ℕ → ElectionManager → ElectionManager × List Effect
  unfolding become_follower
  at_term term m = if ltb m.term term then become_follower now term none m else (m, [])

  unfoldable pub vote_on : RequestPayload → ElectionManager → ElectionManager × ElectionMessage
  unfolding should_vote_for build_vote_message
  vote_on req m =
      if should_vote_for sha256 req.candidate_id req.term m
      then (
        record m { voted_for = some req.candidate_id },
        build_vote_message m req.candidate_id req.term true,
      )
      else (m, build_vote_message m req.candidate_id req.term false)

  unfoldable pub handle_election_request : RequestPayload → ElectionManager → Outcome
  unfolding at_term vote_on build_vote_message
  handle_election_request req m =
      if ltb req.term m.term
      then (m, [], ok (some (build_vote_message m req.candidate_id req.term false)))
      else (let stepped = at_term req.term m in
          let voted = vote_on req stepped.0 in (voted.0, stepped.1, ok (some voted.1)))

unfoldable pub contains : NodeId → List NodeId → Bool
contains id [] = false
contains id (v ∷ vs) = let rest = contains id vs in ite (NodeId-discrete v id) true rest

-- A vote that counts.
unfoldable pub count_vote : NodeId → ElectionManager → ElectionManager × List Effect
unfolding become_leader
count_vote voter m =
    let counted = record m { votes_received = m.votes_received ++ (voter ∷ []) } in
    if ltb ((length m.known_nodes + 1) / 2) (length counted.votes_received)
    then become_leader counted
    else (counted, [])

-- Whether a vote is one for the local node as a candidate of this term.
unfoldable pub is_for_us : VotePayload → ElectionManager → Bool
unfolding is_candidate
is_for_us v m =
    if is_candidate m.status
    then (if v.term == m.term
        then ite (NodeId-discrete v.candidate_id m.local_id) v.granted false
        else false)
    else false

unfoldable pub handle_election_vote : VotePayload → ElectionManager → Outcome
unfolding is_for_us contains count_vote
handle_election_vote v m =
    if is_for_us v m
    then (if contains v.voter_id m.votes_received
        then (m, [], ok none)
        else ((count_vote v.voter_id m).0, (count_vote v.voter_id m).1, ok none))
    else (m, [], ok none)

module _ (now : ℕ) where
  unfoldable pub handle_election_result : ResultPayload → ElectionManager → Outcome
  unfolding become_follower
  handle_election_result r m =
      if ltb r.term m.term
      then (m, [], ok none)
      else ite (NodeId-discrete r.leader_id m.local_id) (m, [], ok none)
          (
            (become_follower now r.term (some r.leader_id) m).0,
            (become_follower now r.term (some r.leader_id) m).1,
            ok none,
          )

  unfoldable pub changed : ChangePayload → ElectionManager → ElectionManager
  changed c m = record m {
    registry_id = some c.registry_id;
    registry_name = some c.registry_name;
    registry_addr = some c.registry_addr;
  }

  unfoldable pub handle_registry_change : ChangePayload → ElectionManager → Outcome
  unfolding become_follower changed control_registry is_leader
  handle_registry_change c m =
      if ltb c.term m.term
      then (m, [], ok none)
      else ite (NodeId-discrete c.registry_id m.local_id) (m, [], ok none)
          (
            (become_follower now c.term (some c.registry_id) (changed c m)).0,
            (if is_leader m.status then control_registry false m else [])
                ++ (become_follower now c.term (some c.registry_id) (changed c m)).1,
            ok none,
          )

  -- `registry_data` is what the sync callback returns, or empty without one.
  unfoldable pub handle_registry_sync : Bytes → SyncPayload → ElectionManager → Outcome
  unfolding become_follower is_leader
  handle_registry_sync registry_data s m =
      if is_leader m.status
      then (if ltb m.term s.term
          then (
            (become_follower now s.term (some s.requester_id) m).0,
            (become_follower now s.term (some s.requester_id) m).1,
            ok none,
          )
          else (
            m,
            [],
            ok (
                some (
                  sync_response_msg (record {
                    leader_id = m.local_id;
                    leader_name = m.local_name;
                    term = m.term;
                    registry_data = registry_data;
                  }))),
          ))
      else (m, [], ok none)

unfoldable pub load_data : Bytes → ElectionManager → List Effect
load_data [] m = []
load_data (b ∷ bs) m = if m.load_set then loaded (b ∷ bs) ∷ [] else []

unfoldable pub handle_sync_response : SyncResponse → ElectionManager → ElectionManager × List Effect
unfolding load_data
handle_sync_response r m = (
  record m {
    term = if ltb m.term r.term then r.term else m.term;
    registry_id = some r.leader_id;
    registry_name = some r.leader_name;
  },
  load_data r.registry_data m,
)

-- `delivers` says what `send_fn` returns.
unfoldable pub request_sync :
    Bool → Bytes → ElectionManager → List Effect × Result ElectionError (Unit {0})
request_sync delivers leader_addr m =
    let msg =
      sync_msg
        (record { requester_id = m.local_id; requester_name = m.local_name; term = m.term }) in
    if m.send_set
    then (sent leader_addr msg ∷ [], if delivers then ok tt else err send_failed)
    else ([], err no_relay_manager)

-- `serde_json::from_slice` on the payloads.
pub record Parse : Type 0 where
  pub request : Bytes → Option RequestPayload
  pub vote : Bytes → Option VotePayload
  pub result : Bytes → Option ResultPayload
  pub change : Bytes → Option ChangePayload
  pub sync : Bytes → Option SyncPayload

abbrev unless_parsed :
    {P : Type 0} → Option P → (P → ElectionManager → Outcome) → ElectionManager → Outcome
unless_parsed none f m = (m, [], err serialize_error)
unless_parsed (some p) f m = f p m

module _ (parse : Parse) (sha256 : Bytes → Bytes) (registry_data : Bytes) (now : ℕ) where
  unfoldable pub dispatch : Option ElectionMessageType → Bytes → ElectionManager → Outcome
  unfolding handle_election_request handle_election_vote handle_election_result
      handle_registry_change handle_registry_sync
  dispatch none payload m = (m, [], ok none)
  dispatch (some election_request) payload m =
      unless_parsed (parse.request payload) (handle_election_request sha256 now) m
  dispatch (some election_vote) payload m =
      unless_parsed (parse.vote payload) handle_election_vote m
  dispatch (some election_result) payload m =
      unless_parsed (parse.result payload) (handle_election_result now) m
  dispatch (some registry_change) payload m =
      unless_parsed (parse.change payload) (handle_registry_change now) m
  dispatch (some registry_sync) payload m =
      unless_parsed (parse.sync payload) (handle_registry_sync now registry_data) m

  unfoldable pub handle_message : Bytes → ElectionManager → Outcome
  unfolding dispatch
  handle_message [] m = (m, [], ok none)
  handle_message (b ∷ payload) m = dispatch (type_from_u8 b) payload m
