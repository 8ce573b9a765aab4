-- ===== src/Election/Votes.antt =====
-- src/registry/election.rs: the votes of a node over a run of messages and missed heartbeats, with the
-- known nodes as they are and without sync responses.
use ll_vpn.Common.{ℕ, ◌≡◌, List, [], ◌∷◌, Bytes}
use ll_vpn.Election.{
  follower, RequestPayload, VotePayload, ResultPayload, ChangePayload, SyncPayload, ElectionManager,
  start_election,
}
use ll_vpn.Election.Handle.{
  handle_election_request, handle_election_vote, handle_election_result, handle_registry_change,
  handle_registry_sync,
}
use ll_vpn.Election.Majority.{
  Inv, follower-Inv, request-Inv, vote-Inv, result-Inv, change-Inv, sync-Inv, start_election-Inv,
}

pub data Event : Type 0 where
  requested : ℕ → RequestPayload → Event
  answered : VotePayload → Event
  resulted : ℕ → ResultPayload → Event
  changed_to : ℕ → ChangePayload → Event
  synced : ℕ → Bytes → SyncPayload → Event
  stood : Event

module _ (sha256 : Bytes → Bytes) where
  unfoldable pub step : Event → ElectionManager → ElectionManager
  step (requested now r) m = (handle_election_request sha256 now r m).0
  step (answered p) m = (handle_election_vote p m).0
  step (resulted now r) m = (handle_election_result now r m).0
  step (changed_to now c) m = (handle_registry_change now c m).0
  step (synced now registry_data s) m = (handle_registry_sync now registry_data s m).0
  step stood m = (start_election m).0

  unfoldable pub run : List Event → ElectionManager → ElectionManager
  unfolding step
  run [] m = m
  run (e ∷ es) m = run es (step e m)

-- The votes that the events bring, the last one first, before those of `received`.
unfoldable pub heard : List Event → List VotePayload → List VotePayload
heard [] received = received
heard (answered p ∷ es) received = heard es (p ∷ received)
heard (requested now r ∷ es) received = heard es received
heard (resulted now r ∷ es) received = heard es received
heard (changed_to now c ∷ es) received = heard es received
heard (synced now registry_data s ∷ es) received = heard es received
heard (stood ∷ es) received = heard es received

module _ (sha256 : Bytes → Bytes) where
  run_from-Inv :
      (es : List Event) (received : List VotePayload) (m : ElectionManager)
      → Inv received m
      → Inv (heard es received) (run sha256 es m)
  unfolding run heard
  run_from-Inv [] received m v = v
  run_from-Inv (requested now r ∷ es) received m v =
      run_from-Inv es received _ (request-Inv sha256 now r received m v)
  run_from-Inv (answered p ∷ es) received m v =
      run_from-Inv es (p ∷ received) _ (vote-Inv p received m v)
  run_from-Inv (resulted now r ∷ es) received m v =
      run_from-Inv es received _ (result-Inv now r received m v)
  run_from-Inv (changed_to now c ∷ es) received m v =
      run_from-Inv es received _ (change-Inv now c received m v)
  run_from-Inv (synced now registry_data s ∷ es) received m v =
      run_from-Inv es received _ (sync-Inv now registry_data s received m v)
  run_from-Inv (stood ∷ es) received m v =
      run_from-Inv es received _ (start_election-Inv received m v)

-- Let a follower without votes go through election requests, votes, results, registry changes, sync
-- requests and starts of elections of its own. Then no node stands twice in its votes, each of them is
-- its own or was received as granted to it in its present term, and if it is the leader, they are more
-- than (known nodes + 1) / 2.
pub heard-Inv :
    (sha256 : Bytes → Bytes) (es : List Event) (m : ElectionManager)
    → m.status ≡ follower
    → m.votes_received ≡ []
    → Inv (heard es []) (run sha256 es m)
heard-Inv sha256 es m f e = run_from-Inv sha256 es [] m (follower-Inv [] m f e)
