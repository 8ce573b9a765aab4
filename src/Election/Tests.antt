-- ===== src/Election/Tests.antt =====
-- src/registry/election.rs: a node that knows three others wins an election.
use ll_vpn.Common.{ℕ, ◌≡◌, refl, true, List, [], ◌∷◌, ℕ_discrete}
use ll_vpn.NodeId.{NodeId-discrete, filled}
use ll_vpn.Election.{KnownNode, ElectionManager, VotePayload, leader, new, start_election}
use ll_vpn.Election.Handle.{handle_election_vote}
use ll_vpn.Election.Majority.{Inv}
use ll_vpn.Election.Votes.{Event, stood, answered, heard, run, heard-Inv}

abbrev known : ℕ → KnownNode
known n = record { id = filled n; name = []; addr = [] }

abbrev manager : ElectionManager
unfolding new
manager = record (new 0 (filled 0) [] 3) { known_nodes = known 1 ∷ known 2 ∷ known 3 ∷ [] }

abbrev granted_by : ℕ → VotePayload
granted_by n = record { voter_id = filled n; candidate_id = filled 0; term = 1; granted = true }

abbrev events : List Event
events = stood ∷ answered (granted_by 1) ∷ answered (granted_by 1) ∷ answered (granted_by 2) ∷ []

leader_test : (run (λ bs. bs) events manager).status ≡ leader
unfolding run NodeId-discrete ℕ_discrete handle_election_vote start_election manager
leader_test = refl

heard-Inv_example : Inv (heard events []) (run (λ bs. bs) events manager)
heard-Inv_example = unfold manager in heard-Inv (λ bs. bs) events manager refl refl
