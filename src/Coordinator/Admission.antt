-- ===== src/Coordinator/Admission.antt =====
-- Who may join: a register request of a machine that is not known (src/coordinator.cpp).
use wirebone_cpp.Prelude.{
  ℕ, ◌≡◌, ◌⊎◌, ◌+◌, ◌%◌, ◌^◌, refl, ap, ◌∙◌, inl, inr, Bool, false, Option, none, some, List, Str,
  Outcome, ok, throws, is_empty, Bool-cases, Option-cases,
}
use wirebone_cpp.Json.{JsonLib}
use wirebone_cpp.IpAlloc.{Inet, IpAllocator}
use wirebone_cpp.Store.Types.{Store, NodeState, PreauthClaim}
use wirebone_cpp.Store.Persist.{}
use wirebone_cpp.Store.Keys.{consume_preauth}
use wirebone_cpp.Store.Keys.Registry.{registry-consume_preauth}
use wirebone_cpp.Store.Nodes.{find_by_machine, register_node}
use wirebone_cpp.Netmap.{Compress, build_register_response}
use wirebone_cpp.Coordinator.Session.{Session, ◌>>◌, continue, bump_map}
use wirebone_cpp.Coordinator.Requests.{RegisterRequest, parse_body, register_request}
use wirebone_cpp.Coordinator.Handlers.{
  Surroundings, reply_json, denied, admit, claimed, newcomer, register_known_or_new, on_register,
}

module _ (lib : JsonLib) (inet : Inet) (compress : Compress) (at : Surroundings) where
  pub reply_json_store :
      (sid : ℕ) (j : lib.Json) (v : Session)
      → (reply_json lib inet compress at sid j v).1.store ≡ v.store
  unfolding reply_json
  reply_json_store sid j v = elim (Option-cases (lib.dump j)) [
    | inl e ↦ rw (e, reply_json)
    | inr (t, e) ↦ rw (e, reply_json)
  ]

  admitted :
      (sid : ℕ) (p : Outcome NodeState × Session)
      → (continue p (λ n.
          ◌>>◌ bump_map
            (reply_json lib inet compress at sid (build_register_response lib)))).1.store
        ≡ p.1.store
  unfolding bump_map
  admitted sid (throws f, v) = refl
  admitted sid (ok n, v) =
      reply_json_store sid (build_register_response lib)
        (record v { map_gen = (v.map_gen + 1) % 2 ^ 64 })

  pub admit_store :
      (sid : ℕ) (machine : Str) (r : RegisterRequest) (ephemeral : Bool) (c : PreauthClaim)
      (v : Session)
      → (admit lib inet compress at sid machine r ephemeral c v).1.store
        ≡ (register_node lib inet machine r.node_key r.host ephemeral c.token c.shared v.store).1
  unfolding admit
  admit_store sid machine r ephemeral c v = admitted sid _

  -- The key of the request was granted, and the machine is registered in the group of the key.
  pub record Admitted (request : RegisterRequest) (machine : Str) (before after : Store)
      : Type 0 where
    pub claim : PreauthClaim
    pub between : Store
    pub some_key : is_empty request.auth ≡ false
    pub granted : consume_preauth lib at.unix request.auth before ≡ (ok (some claim), between)
    pub registered :
        after
        ≡ (register_node lib inet machine request.node_key request.host claim.ephemeral claim.token
            claim.shared between).1

  abbrev DecidedFor : RegisterRequest → Str → Session → Session → Type 0
  DecidedFor r machine v w = (w.store.nodes ≡ v.store.nodes) ⊎ Admitted r machine v.store w.store

  -- The body is a request whose key was granted.
  pub record AdmittedBy (body machine : Str) (before after : Store) : Type 0 where
    pub req : lib.Json
    pub request : RegisterRequest
    pub parsed : parse_body lib body ≡ some req
    pub understood : register_request lib req ≡ ok request
    pub admitted : Admitted request machine before after

  abbrev pub Decided : Str → Str → Session → Session → Type 0
  Decided body machine v w =
      (w.store.nodes ≡ v.store.nodes) ⊎ AdmittedBy body machine v.store w.store

  claimed_lem :
      (sid : ℕ) (machine : Str) (r : RegisterRequest) (v : Session)
      (p : Outcome (Option PreauthClaim) × Store)
      → consume_preauth lib at.unix r.auth v.store ≡ p
      → p.1.nodes ≡ v.store.nodes
      → is_empty r.auth ≡ false
      → DecidedFor r machine v
          (continue (p.0, record v { store = p.1 }) (claimed lib inet compress at sid machine r)).1
  unfolding claimed
  claimed_lem sid machine r v (throws f, s) e h given = inl h
  claimed_lem sid machine r v (ok none, s) e h given =
      inl (ap (λ (x : Store). x.nodes) (reply_json_store sid (denied lib inet compress at) _) ∙ h)
  claimed_lem sid machine r v (ok (some c), s) e h given = inr (record {
    claim = c;
    between = s;
    some_key = given;
    granted = e;
    registered = admit_store sid machine r c.ephemeral c (record v { store = s });
  })

  newcomer_lem :
      (sid : ℕ) (machine : Str) (r : RegisterRequest) (v : Session)
      → DecidedFor r machine v (newcomer lib inet compress at sid machine r v).1
  unfolding newcomer
  newcomer_lem sid machine r v = elim (Bool-cases (is_empty r.auth)) [
    | inl e ↦
        rw (e, newcomer)
          (inl (ap (λ (x : Store). x.nodes) (reply_json_store sid (denied lib inet compress at) v)))
    | inr e ↦
        rw (e, newcomer)
          (claimed_lem sid machine r v (consume_preauth lib at.unix r.auth v.store) refl
            (ap (λ (x : IpAllocator × ℕ × ℕ × List NodeState). x.3)
              (registry-consume_preauth lib at.unix r.auth v.store))
            e)
  ]

  understood_lem :
      (body : Str) (req : lib.Json) (machine : Str) (r : RegisterRequest) (v w : Session)
      → parse_body lib body ≡ some req
      → register_request lib req ≡ ok r
      → DecidedFor r machine v w
      → Decided body machine v w
  understood_lem body req machine r v w parsed understood (inl h) = inl h
  understood_lem body req machine r v w parsed understood (inr h) =
      inr
        (record { req = req; request = r; parsed = parsed; understood = understood; admitted = h })

  register_lem :
      (sid : ℕ) (body : Str) (req : lib.Json) (machine : Str) (r : Outcome RegisterRequest)
      (v : Session)
      → find_by_machine machine v.store.nodes ≡ none
      → parse_body lib body ≡ some req
      → register_request lib req ≡ r
      → Decided body machine v
          (continue (r, v) (register_known_or_new lib inet compress at sid machine)).1
  unfolding register_known_or_new
  register_lem sid body req machine (throws f) v h parsed understood = inl refl
  register_lem sid body req machine (ok r) v h parsed understood =
      rw (register_known_or_new, h)
        (understood_lem body req machine r v (newcomer lib inet compress at sid machine r v).1
          parsed understood (newcomer_lem sid machine r v))

  -- A register request of a machine that is not known, whatever its body is and also where it
  -- throws, leaves the nodes as they were, or a call for the key that its body has was granted and the
  -- machine is registered with the names of the body, and with the flags and in the group of that key.
  pub on_register_lem :
      (sid : ℕ) (machine body : Str) (v : Session)
      → find_by_machine machine v.store.nodes ≡ none
      → Decided body machine v (on_register lib inet compress at sid machine body v).1
  unfolding on_register
  on_register_lem sid machine body v h = elim (Option-cases (parse_body lib body)) [
    | inl e ↦ rw (e, on_register) (inl refl)
    | inr (req, e) ↦
        rw (e, on_register)
          (register_lem sid body req machine (register_request lib req) v h e refl)
  ]
