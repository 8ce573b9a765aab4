-- ===== src/Registry/Tests.antt =====
-- src/registry/center.rs: a server with two names of one id, and a cache.
use ll_vpn.Common.{
  Bool, false, ℕ, ◌≡◌, ◌≢◌, refl, true, false, List, [], ◌∷◌, Option, none, some, arith, Bytes,
  ℕ_discrete, take, drop, length, ◌++◌, take-append, drop-append,
}
use ll_vpn.Common.HashMap
use ll_vpn.Common.HashMap.{Distinct}
use ll_vpn.NodeId.{Bytes-discrete, node_id_eq, bytes_eq, filled}
use ll_vpn.Registry.{
  RegistryServer, RegistryData, new, new_entry, lookup, reverse_lookup, upsert, type_to_u8,
  register_ack, lookup_response, reverse_response,
}
use ll_vpn.Registry.Consistent.{IsSound, upsert_forgets}
use ll_vpn.Registry.Run.{
  IsSoundFile, Call, call_register, call_upsert, call_heartbeat, call_load, run, run-IsSound,
}
use ll_vpn.Registry.Cache.{RegistryCache}
use ll_vpn.Registry.Messages.{
  Json, RegisterPayload, IsFaithful, registered, process_message, register_request, lookup_request,
  reverse_request, registered_answers,
}

-- A file with one name.
abbrev stored : RegistryData
stored = record {
  names = (b'z' ∷ [], new_entry 0 (b'z' ∷ []) (filled 9)) ∷ [];
  reverse = (filled 9, b'z' ∷ []) ∷ [];
}

stored-IsSoundFile : IsSoundFile (some stored)
unfolding reverse_lookup lookup new_entry HashMap.get
stored-IsSoundFile = ((refl, tt), λ id name h. ground (arith, h))

abbrev calls : List (Bool × ℕ × Call)
calls =
    (true, 1, call_register (b'a' ∷ []) (filled 1))
    ∷ (true, 2, call_load)
    ∷ (false, 3, call_register (b'b' ∷ []) (filled 1))
    ∷ (false, 4, call_upsert (b'a' ∷ []) (filled 2))
    ∷ (true, 5, call_heartbeat (b'b' ∷ []))
    ∷ []

run-IsSound_example : IsSound (run calls (new (some stored)))
run-IsSound_example = run-IsSound (some stored) calls stored-IsSoundFile (refl, tt)

abbrev shared : RegistryServer
shared = record {
  names =
      (b'a' ∷ [], new_entry 0 (b'a' ∷ []) (filled 1))
      ∷ (b'b' ∷ [], new_entry 0 (b'b' ∷ []) (filled 1))
      ∷ [];
  reverse = (filled 1, b'b' ∷ []) ∷ [];
  dirty = false;
  file = none;
}

a_test : lookup (b'a' ∷ []) shared ≡ some (filled 1)
unfolding lookup new_entry HashMap.get Bytes-discrete ℕ_discrete
a_test = refl

b_test : lookup (b'b' ∷ []) shared ≡ some (filled 1)
unfolding lookup new_entry HashMap.get Bytes-discrete ℕ_discrete
b_test = refl

abbrev a_name : Bytes
a_name = b'a' ∷ []

abbrev b_name : Bytes
b_name = b'b' ∷ []

apart_test : a_name ≢ b_name
apart_test e = ground (arith, e)

differ_test : filled 1 ≢ filled 2
differ_test e = ground (arith, e)

upsert_forgets_example :
    (lookup (b'b' ∷ []) (upsert true 5 (b'a' ∷ []) (filled 2) shared).0 ≡ some (filled 1))
    × (reverse_lookup (filled 1) (upsert true 5 (b'a' ∷ []) (filled 2) shared).0 ≡ none)
upsert_forgets_example =
    upsert_forgets true 5 (b'a' ∷ []) (b'b' ∷ []) (filled 1) (filled 2) shared apart_test
      differ_test a_test b_test

abbrev cache : RegistryCache
cache = record { cache = (b'a' ∷ [], (filled 1, 0)) ∷ []; ttl = 60 }

cache-Distinct : Distinct cache.cache
unfolding HashMap.get
cache-Distinct = (refl, tt)

-- A toy of JSON: names and ids are their bytes, a registration is a name's length, the name and the id.
abbrev read_pair : Bytes → Option RegisterPayload
read_pair [] = none
read_pair (n ∷ bs) = some (record { name = take n bs; node_id = record { bytes = drop n bs } })

abbrev toy : Json
toy = record {
  read_register = read_pair;
  read_lookup = λ bs. some bs;
  read_reverse = λ bs. some (record { bytes = bs });
  write_register = λ p. length p.name ∷ (p.name ++ p.node_id.bytes);
  write_lookup = λ name. name;
  write_reverse = λ id. id.bytes;
  write_ack = λ p. [];
  write_lookup_response = λ p. [];
  write_reverse_response = λ p. [];
  write_list_response = λ p. [];
}

toy-IsFaithful : IsFaithful toy
toy-IsFaithful = record {
  register_read =
      λ p. rw (take-append p.name p.node_id.bytes, drop-append p.name p.node_id.bytes) refl;
  lookup_read = λ name. refl;
  reverse_read = λ id. refl;
}

free_test : lookup (b'c' ∷ []) shared ≡ none
unfolding lookup new_entry HashMap.get Bytes-discrete ℕ_discrete
free_test = refl

registered_answers_example :
    (s' : RegistryServer) × (process_message toy true 7
        (register_request toy (b'c' ∷ []) (filled 4)).payload
        shared
      ≡ (
        s',
        some (
            type_to_u8 register_ack
            ∷ toy.write_ack (record { success = true; message = registered (b'c' ∷ []) })),
      ))
    × (process_message toy true 7 (lookup_request toy (b'c' ∷ [])).payload s' ≡ (
      s',
      some (
          type_to_u8 lookup_response
          ∷ toy.write_lookup_response (record { found = true; node_id = some (filled 4) })),
    ))
    × (process_message toy true 7 (reverse_request toy (filled 4)).payload s' ≡ (
      s',
      some (
          type_to_u8 reverse_response
          ∷ toy.write_reverse_response (record { found = true; name = some (b'c' ∷ []) })),
    ))
registered_answers_example =
    registered_answers toy true 7 (b'c' ∷ []) (filled 4) shared toy-IsFaithful free_test
