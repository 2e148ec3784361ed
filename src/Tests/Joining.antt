-- ===== src/Tests/Joining.antt =====
-- A register request with a one-shot key.
use wirebone_cpp.Prelude.{pos, [], ◌∷◌, refl, codes, none, arith}
use wirebone_cpp.IpAlloc.Bounds.{make-IsValid}
use wirebone_cpp.Store.Persist.{fresh}
use wirebone_cpp.Store.Nodes.{find_by_machine}
use wirebone_cpp.Http2.{new_stream}
use wirebone_cpp.Coordinator.Session.{Session}
use wirebone_cpp.Coordinator.Handlers.{Surroundings, on_register}
use wirebone_cpp.Store.Nodes.Consistent.{IsConsistent}
use wirebone_cpp.Coordinator.Admission.{Decided, on_register_lem}
use wirebone_cpp.Samples.{sample_json, sample_inet}
use wirebone_cpp.Tests.Addresses.{cidr4, cidr6, small, small_made}
use wirebone_cpp.Tests.Preauth.{one_shot}
use wirebone_cpp.Prelude.{some, true, Str}

abbrev pub surroundings : Surroundings
surroundings = record {
  unix = pos 800;
  steady = 70;
  stamp = codes "now";
  created = λ n. codes "then";
  domain = codes "tail.net";
  keepalive = 60;
}

abbrev pub session : Session
session = record {
  store = record (fresh [] small none true true) { keys = one_shot ∷ [] };
  map_gen = 1;
  server = record { streams = new_stream 1 ∷ []; submitted = []; resumed = [] };
  live = [];
}

abbrev pub body : Str
body = sample_json.object ((codes "AuthKey", sample_json.of_str (codes "wbkey-1")) ∷ [])

on_register_lem_example :
    Decided sample_json sample_inet
      (λ t. some t)
      surroundings
      body
      (codes "mkey:aa")
      session
      (on_register sample_json sample_inet
        (λ t. some t)
        surroundings
        1
        (codes "mkey:aa")
        body
        session).1
unfolding fresh find_by_machine
on_register_lem_example =
    on_register_lem sample_json sample_inet (λ t. some t) surroundings 1 (codes "mkey:aa") body
      session refl

pub consistent : IsConsistent sample_inet session.store
unfolding fresh
consistent = record {
  valid = make-IsValid sample_inet cidr4 cidr6 small small_made;
  id_lt = omega arith;
  apart = tt;
  issued = tt;
}
