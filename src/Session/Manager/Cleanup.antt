-- ===== src/Session/Manager/Cleanup.antt =====
-- src/vpn/session.rs, `cleanup_expired`: the sessions that it removes and those that it leaves.
use ll_vpn.Common.{
  ℕ, ◌≡◌, refl, ◌∙◌, Bool, true, false, List, [], ◌∷◌, none, some, if◌then◌else◌, ite, arith,
  key_eq,
}
use ll_vpn.Common.HashMap
use ll_vpn.Common.HashMap.{
  HashMap, Distinct, get-remove, get-retain, remove_absent, retain_absent, remove-Distinct,
}
use ll_vpn.NodeId.{NodeId, node_id_eq}
use ll_vpn.Session.{Session, is_expired}
use ll_vpn.Session.Manager.{SessionManager, expired_ids, remove_each, cleanup_expired}

-- Whether an id stands in a list.
abbrev pub among : List NodeId → NodeId → Bool
among [] id = false
among (j ∷ ids) id = ite (key_eq j id) true (among ids id)

-- Whether the table has an expired session under an id.
abbrev pub has_expired : ℕ → NodeId → HashMap NodeId Session → Bool
has_expired now id sessions = elim (HashMap.get id sessions) [
  | none ↦ false
  | some s ↦ is_expired now s
]

get-remove_each :
    (ids : List NodeId) (id : NodeId) (sessions : HashMap NodeId Session)
    → HashMap.get id (remove_each ids sessions)
      ≡ (if among ids id then none else HashMap.get id sessions)
unfolding remove_each
get-remove_each [] id sessions = refl
get-remove_each (j ∷ ids) id sessions =
    ground (arith, get-remove_each ids id (HashMap.remove j sessions), get-remove id j sessions)

among-expired_ids :
    (now : ℕ) (id : NodeId) (sessions : HashMap NodeId Session)
    → Distinct sessions
    → among (expired_ids now sessions) id ≡ has_expired now id sessions
unfolding expired_ids HashMap.get
among-expired_ids now id [] d = refl
among-expired_ids now id ((j, s) ∷ rest) d = ground (arith, among-expired_ids now id rest d.1)

-- In a table where no id stands twice, the ids that a cleanup returns are those of the expired
-- sessions, and it is these that it removes: what is left under an id is what was there, unless that
-- had expired.
pub cleanup_expired-exact :
    (now : ℕ) (m : SessionManager) (id : NodeId)
    → Distinct m.sessions
    → (among (cleanup_expired now m).1 id ≡ has_expired now id m.sessions)
      × (HashMap.get id (cleanup_expired now m).0.sessions
          ≡ (if has_expired now id m.sessions then none else HashMap.get id m.sessions))
unfolding cleanup_expired
cleanup_expired-exact now m id d =
    let same = among-expired_ids now id m.sessions d in
    (same, get-remove_each (expired_ids now m.sessions) id m.sessions ∙ rw same)

remove_each-Distinct :
    (ids : List NodeId) (sessions : HashMap NodeId Session)
    → Distinct sessions
    → Distinct (remove_each ids sessions)
unfolding remove_each
remove_each-Distinct [] sessions d = d
remove_each-Distinct (j ∷ ids) sessions d =
    remove_each-Distinct ids (HashMap.remove j sessions) (remove-Distinct j sessions d)

pub cleanup_expired-Distinct :
    (now : ℕ) (m : SessionManager)
    → Distinct m.sessions
    → Distinct (cleanup_expired now m).0.sessions
unfolding cleanup_expired
cleanup_expired-Distinct now m d = remove_each-Distinct (expired_ids now m.sessions) m.sessions d
