-- ===== src/Registry/Run.antt =====
-- src/registry/center.rs: any calls of the server, one after the other.
use ll_vpn.Common.{
  ℕ, ◌≡◌, refl, ◌&&◌, Bool, true, false, List, [], ◌∷◌, Option, none, some, if_cases, Bytes, Result,
  ok, err, arith,
}
use ll_vpn.Common.HashMap
use ll_vpn.Common.HashMap.{HashMap, Distinct, contains_key, insert-Distinct}
use ll_vpn.NodeId.{NodeId, node_id_eq, bytes_eq}
use ll_vpn.Registry.{
  RegistryServer, RegistryEntry, RegistryData, RegistryError, new, load_from_file, touch,
  save_to_file, save_if_dirty, saved, register, with_pair, without_old, upsert, already_registered,
  not_found, update_heartbeat,
}
use ll_vpn.Registry.Consistent.{
  Agree, IsSound, Agree-IsSound, IsSound-Agree, with_pair-Agree, no_entry, without_old-Agree,
  without_old_free, without_old-Distinct, touched-Agree, insert_each-Agree, insert_each-Distinct,
}

-- A call that changes the server.
pub data Call : Type 0 where
  call_register : Bytes → NodeId → Call
  call_upsert : Bytes → NodeId → Call
  call_heartbeat : Bytes → Call
  call_load : Call

unfoldable pub step : Bool → ℕ → Call → RegistryServer → RegistryServer
step writes now (call_register name id) s = (register writes now name id s).0
step writes now (call_upsert name id) s = (upsert writes now name id s).0
step writes now (call_heartbeat name) s = (update_heartbeat writes now name s).0
step writes now call_load s = load_from_file s

-- Each call with whether the file system takes what it writes, and its time.
unfoldable pub run : List (Bool × ℕ × Call) → RegistryServer → RegistryServer
unfolding step
run [] s = s
run ((writes, now, c) ∷ cs) s = run cs (step writes now c s)

-- Nothing is loaded after a write that failed, where `intact` says that none has failed before.
abbrev pub LoadsIntact : Bool → List (Bool × ℕ × Call) → Type 0
LoadsIntact intact [] = Unit {0}
LoadsIntact intact ((writes, now, call_load) ∷ cs) = (intact ≡ true) × LoadsIntact intact cs
LoadsIntact intact ((writes, now, call_register name id) ∷ cs) = LoadsIntact (intact && writes) cs
LoadsIntact intact ((writes, now, call_upsert name id) ∷ cs) = LoadsIntact (intact && writes) cs
LoadsIntact intact ((writes, now, call_heartbeat name) ∷ cs) = LoadsIntact (intact && writes) cs

-- The data of the file agree with each other, and with a table of reverse entries.
abbrev FileAgrees : Option RegistryData → HashMap NodeId Bytes → Type 0
FileAgrees none reverse = Unit {0}
FileAgrees (some d) reverse = Distinct d.reverse × Agree d.names d.reverse × Agree d.names reverse

record Inv (intact : Bool) (s : RegistryServer) : Type 0 where
  agree : Agree s.names s.reverse
  distinct : Distinct s.reverse
  filed : intact ≡ true → FileAgrees s.file s.reverse

unchanged-Inv :
    (intact writes : Bool) (s : RegistryServer) → Inv intact s → Inv (intact && writes) s
unchanged-Inv intact writes s v = record {
  agree = v.agree;
  distinct = v.distinct;
  filed = λ e. v.filed (ground (arith, e));
}

saved-Inv :
    (intact writes : Bool) (s : RegistryServer)
    → Agree s.names s.reverse
    → Distinct s.reverse
    → Inv (intact && writes) (saved writes s)
unfolding saved save_if_dirty save_to_file
saved-Inv intact true s h d = record { agree = h; distinct = d; filed = λ e. (d, h, h) }
saved-Inv intact false s h d = record {
  agree = h;
  distinct = d;
  filed = λ e. absurd (ground (arith, e));
}

register-Inv :
    (intact writes : Bool) (now : ℕ) (name : Bytes) (id : NodeId) (s : RegistryServer)
    → Inv intact s
    → Inv (intact && writes) (register writes now name id s).0
unfolding register with_pair
register-Inv intact writes now name id s v =
    if_cases (λ (r : RegistryServer × Result RegistryError (Unit {0})). Inv (intact && writes) r.0)
      (contains_key name s.names) (s, err (already_registered name))
      (saved writes (with_pair now name id s.reverse s), ok tt)
      (λ taken. unchanged-Inv intact writes s v)
      (λ free.
        saved-Inv intact writes (with_pair now name id s.reverse s)
          (with_pair-Agree now name id s.reverse s v.agree (no_entry name s v.agree free))
          (insert-Distinct id name s.reverse v.distinct))

upsert-Inv :
    (intact writes : Bool) (now : ℕ) (name : Bytes) (id : NodeId) (s : RegistryServer)
    → Inv intact s
    → Inv (intact && writes) (upsert writes now name id s).0
unfolding upsert with_pair
upsert-Inv intact writes now name id s v =
    saved-Inv intact writes (with_pair now name id (without_old name s) s)
      (with_pair-Agree now name id (without_old name s) s (without_old-Agree name s v.agree)
        (without_old_free name s v.agree))
      (insert-Distinct id name (without_old name s) (without_old-Distinct name s v.distinct))

heartbeat-Inv :
    (intact writes : Bool) (now : ℕ) (name : Bytes) (s : RegistryServer)
    → Inv intact s
    → Inv (intact && writes) (update_heartbeat writes now name s).0
unfolding update_heartbeat
heartbeat-Inv intact writes now name s v =
    let touched = record s { names = HashMap.update name (touch now) s.names } in
    if_cases (λ (r : RegistryServer × Result RegistryError (Unit {0})). Inv (intact && writes) r.0)
      (contains_key name s.names) (saved writes touched, ok tt) (s, err (not_found name))
      (λ known. saved-Inv intact writes touched (touched-Agree now name s v.agree) v.distinct)
      (λ unknown. unchanged-Inv intact writes s v)

loaded-Inv :
    (names : HashMap Bytes RegistryEntry) (reverse : HashMap NodeId Bytes) (dirty : Bool)
    (file : Option RegistryData)
    → Inv true (record { names = names; reverse = reverse; dirty = dirty; file = file })
    → Inv true
        (load_from_file (record { names = names; reverse = reverse; dirty = dirty; file = file }))
unfolding load_from_file
loaded-Inv names reverse dirty none v = v
loaded-Inv names reverse dirty (some d) v =
    let (apart, own, here) = v.filed refl in
    let both = insert_each-Agree d.names d.reverse reverse apart own here in
    record {
      agree = both;
      distinct = insert_each-Distinct d.reverse reverse v.distinct;
      filed = λ e. (apart, own, both);
    }

load-Inv : (s : RegistryServer) → Inv true s → Inv true (load_from_file s)
load-Inv s v = loaded-Inv s.names s.reverse s.dirty s.file v

run_from-Inv :
    (intact : Bool) (cs : List (Bool × ℕ × Call)) (s : RegistryServer)
    → LoadsIntact intact cs
    → Inv intact s
    → IsSound (run cs s)
unfolding run
run_from-Inv intact [] s l v = Agree-IsSound s v.agree
run_from-Inv intact ((writes, now, call_register name id) ∷ cs) s l v =
    run_from-Inv (intact && writes) cs _ l (register-Inv intact writes now name id s v)
run_from-Inv intact ((writes, now, call_upsert name id) ∷ cs) s l v =
    run_from-Inv (intact && writes) cs _ l (upsert-Inv intact writes now name id s v)
run_from-Inv intact ((writes, now, call_heartbeat name) ∷ cs) s l v =
    run_from-Inv (intact && writes) cs _ l (heartbeat-Inv intact writes now name s v)
run_from-Inv true ((writes, now, call_load) ∷ cs) s l v =
    run_from-Inv true cs (load_from_file s) l.1 (load-Inv s v)
run_from-Inv false ((writes, now, call_load) ∷ cs) s l v = absurd (ground (arith, l.0))

-- The data of a file as a server would have them.
abbrev pub IsSoundFile : Option RegistryData → Type 0
IsSoundFile none = Unit {0}
IsSoundFile (some d) =
    Distinct d.reverse
    × IsSound (record { names = d.names; reverse = d.reverse; dirty = false; file = none })

new-Inv : (file : Option RegistryData) → IsSoundFile file → Inv true (new file)
unfolding new Agree HashMap.get
new-Inv none h = record {
  agree = λ j n e. absurd (ground (arith, e));
  distinct = tt;
  filed = λ e. tt;
}
new-Inv (some d) h = record {
  agree = λ j n e. absurd (ground (arith, e));
  distinct = tt;
  filed = λ e. (h.0, IsSound-Agree _ h.1, λ j n e. absurd (ground (arith, e)));
}

-- A new server, whose file is absent or has tables with each id once in which the property holds, keeps it
-- under any calls of `register`, `upsert`, `update_heartbeat` and `load_from_file`, whether the writing of
-- the file succeeds or not, as long as nothing is loaded after a write that failed: the name that
-- `reverse_lookup` gives for an id is one under which `lookup` gives that id.
pub run-IsSound :
    (file : Option RegistryData) (cs : List (Bool × ℕ × Call))
    → IsSoundFile file
    → LoadsIntact true cs
    → IsSound (run cs (new file))
run-IsSound file cs h l = run_from-Inv true cs (new file) l (new-Inv file h)
