-- ===== src/Coordinator/Invariant.antt =====
-- The registry's invariant over the requests of a connection (src/coordinator.cpp).
use wirebone_cpp.Prelude.{
  ℕ, ◌+◌, ◌<◌, ◌^◌, ◌≡◌, arith, refl, inl, inr, Bool, true, not, ◌&&◌, Option, none, some, List, [],
  Str, codes, str_eq, is_empty, Outcome, ok, throws, if◌then◌else◌, Bool-cases, Option-cases,
}
use wirebone_cpp.Json.{JsonLib}
use wirebone_cpp.IpAlloc.{Inet}
use wirebone_cpp.Store.Types.{Store, NodeState, PreauthClaim}
use wirebone_cpp.Store.Keys.{consume_preauth}
use wirebone_cpp.Store.Nodes.{find_by_machine, set_online}
use wirebone_cpp.Store.Nodes.Consistent.{IsConsistent, IsConsistent-members, Updated-self}
use wirebone_cpp.Store.Nodes.Preserve.{
  register_node-IsConsistent, update_map_info-IsConsistent, set_online-IsConsistent,
}
use wirebone_cpp.Netmap.{Compress}
use wirebone_cpp.Http2.{reply}
use wirebone_cpp.Coordinator.Session.{
  Session, Handler, ◌>>=◌, ◌>>◌, look, continue, on_store, on_server, bump_map,
}
use wirebone_cpp.Coordinator.Requests.{
  RegisterRequest, MapRequest, parse_body, register_request, map_request, endpoints_from_req,
  readonly,
}
use wirebone_cpp.Coordinator.Handlers.{
  Surroundings, json_type, reply_json, denied, admit, claimed, newcomer, register_known_or_new,
  on_register, answer_map, map_known, update_from_map, on_map, on_request, no_claim,
}
use wirebone_cpp.Store.Keys.Registry.{registry, registry-consume_preauth}
use wirebone_cpp.Coordinator.Admission.{reply_json_store, admit_store}

-- Neither counter is about to wrap.
abbrev pub HasRoom : Store → Type 0
HasRoom s = (s.next_node_id + 1 < 2 ^ 64) × (s.next_ip_index + 1 < 2 ^ 32)

same_registry :
    (inet : Inet) (s t : Store)
    → registry t ≡ registry s
    → IsConsistent inet s
    → IsConsistent inet t
same_registry inet s t e h =
    let parts : (t.alloc ≡ s.alloc)
        × (t.next_node_id ≡ s.next_node_id)
        × (t.next_ip_index ≡ s.next_ip_index)
        × (t.nodes ≡ s.nodes) =
      (cc, cc, cc, cc) in
    let (ea, ei, ex, en) = parts in
    IsConsistent-members inet s t ea ei ex (rw en (Updated-self s.nodes)) h

same_room : (s t : Store) → registry t ≡ registry s → HasRoom s → HasRoom t
same_room s t e (hi, hx) =
    let parts : (t.next_node_id ≡ s.next_node_id) × (t.next_ip_index ≡ s.next_ip_index) =
      (cc, cc) in
    let (ei, ex) = parts in (rw ei hi, rw ex hx)

module _ (lib : JsonLib) (inet : Inet) (compress : Compress) (at : Surroundings) where
  -- The handler keeps a consistent registry with room consistent.
  abbrev Keeps : Handler (Unit {0}) → Type 0
  Keeps h =
      (v : Session) → HasRoom v.store → IsConsistent inet v.store → IsConsistent inet (h v).1.store

  reply_json-Keeps : (sid : ℕ) (j : lib.Json) → Keeps (reply_json lib inet compress at sid j)
  reply_json-Keeps sid j v room h = rw (reply_json_store lib inet compress at sid j v) h

  admit-Keeps :
      (sid : ℕ) (machine : Str) (r : RegisterRequest) (ephemeral : Bool) (c : PreauthClaim)
      → Keeps (admit lib inet compress at sid machine r ephemeral c)
  admit-Keeps sid machine r ephemeral c v (hi, hx) h =
      rw (admit_store lib inet compress at sid machine r ephemeral c v) (
        register_node-IsConsistent lib inet machine r.node_key r.host c.token ephemeral c.shared
          v.store hi hx h)

  claimed-Keeps :
      (sid : ℕ) (machine : Str) (r : RegisterRequest) (v : Session)
      (p : Outcome (Option PreauthClaim) × Store)
      → registry p.1 ≡ registry v.store
      → HasRoom v.store
      → IsConsistent inet v.store
      → IsConsistent inet
          (continue
            (p.0, record v { store = p.1 })
            (claimed lib inet compress at sid machine r)).1.store
  unfolding claimed
  claimed-Keeps sid machine r v (throws f, s) e room h = same_registry inet v.store s e h
  claimed-Keeps sid machine r v (ok none, s) e room h =
      reply_json-Keeps sid (denied lib inet compress at) (record v { store = s })
        (same_room v.store s e room) (same_registry inet v.store s e h)
  claimed-Keeps sid machine r v (ok (some c), s) e room h =
      admit-Keeps sid machine r c.ephemeral c (record v { store = s }) (same_room v.store s e room)
        (same_registry inet v.store s e h)

  newcomer-Keeps :
      (sid : ℕ) (machine : Str) (r : RegisterRequest)
      → Keeps (newcomer lib inet compress at sid machine r)
  unfolding newcomer
  newcomer-Keeps sid machine r v room h = elim (Bool-cases (is_empty r.auth)) [
    | inl e ↦ rw (e, newcomer) (reply_json-Keeps sid (denied lib inet compress at) v room h)
    | inr e ↦
        rw (e, newcomer)
          (claimed-Keeps sid machine r v (consume_preauth lib at.unix r.auth v.store)
            (registry-consume_preauth lib at.unix r.auth v.store) room h)
  ]

  known_or_new-Keeps :
      (sid : ℕ) (machine : Str) (r : RegisterRequest)
      → Keeps (register_known_or_new lib inet compress at sid machine r)
  unfolding register_known_or_new
  known_or_new-Keeps sid machine r v room h =
      elim (Option-cases (find_by_machine machine v.store.nodes)) [
        | inl e ↦ rw (register_known_or_new, e) (newcomer-Keeps sid machine r v room h)
        | inr (n, e) ↦
            rw (register_known_or_new, e) (admit-Keeps sid machine r r.ephemeral no_claim v room h)
      ]

  request_read :
      (sid : ℕ) (machine : Str) (r : Outcome RegisterRequest)
      → Keeps (λ v. continue (r, v) (register_known_or_new lib inet compress at sid machine))
  request_read sid machine (throws f) v room h = h
  request_read sid machine (ok r) v room h = known_or_new-Keeps sid machine r v room h

  on_register-Keeps :
      (sid : ℕ) (machine body : Str) → Keeps (on_register lib inet compress at sid machine body)
  unfolding on_register
  on_register-Keeps sid machine body v room h = elim (Option-cases (parse_body lib body)) [
    | inl e ↦ rw (e, on_register) h
    | inr (req, e) ↦
        rw (e, on_register) (request_read sid machine (register_request lib req) v room h)
  ]

  pub bumped : (p : Outcome (Unit {0}) × Session) → (continue p (λ _. bump_map)).1.store ≡ p.1.store
  unfolding bump_map
  bumped (throws f, v) = refl
  bumped (ok u, v) = refl

  update-Keeps :
      (machine : Str) (r : MapRequest) (ends : List Str) (v : Session)
      → IsConsistent inet v.store
      → IsConsistent inet (update_from_map lib inet compress at machine r ends v).1.store
  unfolding update_from_map
  update-Keeps machine r ends v h = elim (Bool-cases (readonly r)) [
    | inl e ↦ rw (e, update_from_map) h
    | inr e ↦
        rw (e, update_from_map, bumped _)
          (update_map_info-IsConsistent lib inet machine r.node_key r.disco_key r.host ends v.store
            h)
  ]

  answered_map :
      (sid : ℕ) (machine : Str) (r : MapRequest) (self : NodeState) (v : Session)
      → (answer_map lib inet compress at sid machine r self v).1.store ≡ v.store
  unfolding answer_map
  answered_map sid machine r self v = ground arith

  known_map :
      (sid : ℕ) (machine : Str) (r : MapRequest) (o : Option NodeState) (v : Session)
      → (map_known lib inet compress at sid machine r o v).1.store ≡ v.store
  unfolding map_known
  known_map sid machine r none v = refl
  known_map sid machine r (some self) v = answered_map sid machine r self v

  -- What `on_map` does after the update.
  abbrev pub finish_map : ℕ → Str → MapRequest → Handler (Unit {0})
  finish_map sid machine r = ◌>>◌ (on_store (λ s. (ok tt, set_online machine true s))) (
      if r.omit_peers && not r.stream
      then on_server (reply sid 200 (json_type lib inet compress at) [])
      else (look (λ v. find_by_machine machine v.store.nodes)
          >>= map_known lib inet compress at sid machine r))

  pub finish_map_store :
      (sid : ℕ) (machine : Str) (r : MapRequest) (v : Session)
      → (finish_map sid machine r v).1.store ≡ set_online machine true v.store
  finish_map_store sid machine r v = elim (Bool-cases (r.omit_peers && not r.stream)) [
    | inl e ↦ rw e
    | inr e ↦ rw e (known_map sid machine r _ _)
  ]

  finished :
      (sid : ℕ) (machine : Str) (r : MapRequest) (p : Outcome (Unit {0}) × Session)
      → IsConsistent inet p.1.store
      → IsConsistent inet (continue p (λ _. finish_map sid machine r)).1.store
  finished sid machine r (throws f, v) h = h
  finished sid machine r (ok u, v) h =
      rw (finish_map_store sid machine r v)
        (set_online-IsConsistent lib inet machine true v.store h)

  map_read :
      (sid : ℕ) (machine : Str) (ends : List Str) (r : Outcome MapRequest) (v : Session)
      → IsConsistent inet v.store
      → IsConsistent inet
          (continue
            (r, v)
            (λ r.
              ◌>>◌
                (update_from_map lib inet compress at machine r ends)
                (finish_map sid machine r))).1.store
  map_read sid machine ends (throws f) v h = h
  map_read sid machine ends (ok r) v h =
      finished sid machine r (update_from_map lib inet compress at machine r ends v)
        (update-Keeps machine r ends v h)

  on_map-Keeps :
      (sid : ℕ) (machine body : Str) → Keeps (on_map lib inet compress at sid machine body)
  unfolding on_map
  on_map-Keeps sid machine body v room h = elim (Option-cases (parse_body lib body)) [
    | inl e ↦ rw (e, on_map) h
    | inr (req, e) ↦
        rw (e, on_map) (map_read sid machine (endpoints_from_req lib req) (map_request lib req) v h)
  ]

  -- Whatever a client sends on its connection (method, path and body), the registry stays
  -- consistent, as long as neither counter wraps.
  pub on_request-IsConsistent :
      (machine : Str) (sid : ℕ) (method path body : Str) (v : Session)
      → HasRoom v.store
      → IsConsistent inet v.store
      → IsConsistent inet (on_request lib inet compress at machine sid method path body v).1.store
  unfolding on_request
  on_request-IsConsistent machine sid method path body v room h =
      elim (Bool-cases (str_eq method (codes "POST"))) [
        | inr e ↦ rw (on_request, e) h
        | inl e ↦ elim (Bool-cases (str_eq path (codes "/machine/register"))) [
          | inl f ↦ rw (on_request, e, f) (on_register-Keeps sid machine body v room h)
          | inr f ↦ elim (Bool-cases (str_eq path (codes "/machine/map"))) [
            | inl g ↦ rw (on_request, e, f, g) (on_map-Keeps sid machine body v room h)
            | inr g ↦ rw (on_request, e, f, g) h
          ]
        ]
      ]
