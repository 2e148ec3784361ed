-- ===== src/Coordinator/Handlers.antt =====
-- src/coordinator.cpp: on_register, on_map and the dispatch of serve_h2.
use wirebone_cpp.Prelude.{
  ℕ, ℤ, Bool, true, false, not, ◌&&◌, Option, none, some, List, [], ◌∷◌, ◌++◌, Str, codes, is_empty,
  str_eq, ok, Fault, or_throw, if◌then◌else◌,
}
use wirebone_cpp.Json.{JsonLib}
use wirebone_cpp.IpAlloc.{Inet}
use wirebone_cpp.Store.Types.{PreauthClaim, NodeState}
use wirebone_cpp.Store.Keys.{consume_preauth}
use wirebone_cpp.Store.Nodes.{find_by_machine, register_node, update_map_info, set_online}
use wirebone_cpp.Netmap.{
  Compress, user_profile, login_profile, build_register_response, build_full_map, encode_map_frame,
}
use wirebone_cpp.Http2.{reply, reply_stream_start}
use wirebone_cpp.Coordinator.Session.{
  Handler, ◌>>=◌, ◌>>◌, pure, on_store, on_server, look, bump_map,
}
use wirebone_cpp.Coordinator.Requests.{
  RegisterRequest, MapRequest, parse_body, register_request, map_request, endpoints_from_req,
  readonly,
}

-- The claim of a machine that is known.
abbrev pub no_claim : PreauthClaim
no_claim = record { ephemeral = false; token = []; shared = false }

-- What a handler takes from its surroundings: the clocks and the members of `Config`.
pub record Surroundings : Type 0 where
  pub unix : ℤ
  pub steady : ℕ
  pub stamp : Str
  pub created : NodeState → Str
  pub domain : Str
  pub keepalive : ℕ

module _ (lib : JsonLib) (inet : Inet) (compress : Compress) (at : Surroundings) where
  open lib use {Json, of_str, of_bool, object, dump}

  abbrev pub json_type : Str
  json_type = codes "application/json"

  -- A 200 with the text of a value.
  unfoldable pub reply_json : ℕ → Json → Handler (Unit {0})
  reply_json sid j = do
    text ← pure (or_throw Fault.type_error (dump j))
    on_server (reply sid 200 json_type text)

  abbrev pub denied : Json
  denied = object (
      (codes "User", user_profile lib)
      ∷ (codes "Login", login_profile lib)
      ∷ (codes "MachineAuthorized", of_bool false)
      ∷ (codes "Error", of_str (codes "invalid or missing preauth key"))
      ∷ [])

  -- The part of `on_register` that registers.
  unfoldable pub admit : ℕ → Str → RegisterRequest → Bool → PreauthClaim → Handler (Unit {0})
  admit sid machine r ephemeral claim = do
    node ←
        on_store
          (register_node lib inet machine r.node_key r.host ephemeral claim.token claim.shared)
    bump_map
    reply_json sid (build_register_response lib)

  unfoldable pub claimed : ℕ → Str → RegisterRequest → Option PreauthClaim → Handler (Unit {0})
  claimed sid machine r none = reply_json sid denied
  claimed sid machine r (some claim) = admit sid machine r claim.ephemeral claim

  -- A machine that is not known.
  unfoldable pub newcomer : ℕ → Str → RegisterRequest → Handler (Unit {0})
  newcomer sid machine r =
      if is_empty r.auth
      then reply_json sid denied
      else on_store (consume_preauth lib at.unix r.auth) >>= claimed sid machine r

  unfoldable pub register_known_or_new : ℕ → Str → RegisterRequest → Handler (Unit {0})
  register_known_or_new sid machine r v = elim (find_by_machine machine v.store.nodes) [
    | some n ↦ admit sid machine r r.ephemeral no_claim v
    | none ↦ newcomer sid machine r v
  ]

  unfoldable pub on_register : ℕ → Str → Str → Handler (Unit {0})
  on_register sid machine body = elim (parse_body lib body) [
    | none ↦ on_server (reply sid 400 json_type (codes "{}"))
    | some req ↦ pure (register_request lib req) >>= register_known_or_new sid machine
  ]

  -- The first map of a request, as one answer or as the start of a stream.
  unfoldable pub answer_map : ℕ → Str → MapRequest → NodeState → Handler (Unit {0})
  answer_map sid machine r self = do
    all ← look (λ v. v.store.nodes)
    first ← pure (
        encode_map_frame lib compress (build_full_map lib at.created at.stamp self all at.domain)
          r.zstd)
    if not r.stream then on_server (reply sid 200 json_type first) else do
      on_server (reply_stream_start sid 200 first)
      λ v. (
        ok tt,
        record v {
          live =
              v.live
              ++ record {
                stream_id = sid;
                machine = machine;
                zstd = r.zstd;
                last_gen = v.map_gen;
                last_send = at.steady;
              }
                ∷ [];
        },
      )

  unfoldable pub map_known : ℕ → Str → MapRequest → Option NodeState → Handler (Unit {0})
  map_known sid machine r none =
      on_server (reply sid 401 (codes "text/plain") (codes "unauthorized"))
  map_known sid machine r (some self) = answer_map sid machine r self

  unfoldable pub update_from_map : Str → MapRequest → List Str → Handler (Unit {0})
  update_from_map machine r endpoints = if readonly r then pure (ok tt) else do
    on_store (update_map_info lib inet machine r.node_key r.disco_key r.host endpoints)
    bump_map

  unfoldable pub on_map : ℕ → Str → Str → Handler (Unit {0})
  on_map sid machine body = elim (parse_body lib body) [
    | none ↦ on_server (reply sid 400 json_type (codes "{}"))
    | some req ↦ do
      r ← pure (map_request lib req)
      update_from_map machine r (endpoints_from_req lib req)
      on_store (λ s. (ok tt, set_online machine true s))
      if r.omit_peers && not r.stream
          then on_server (reply sid 200 json_type [])
          else (look (λ v. find_by_machine machine v.store.nodes) >>= map_known sid machine r)
  ]

  -- The request handler of `serve_h2`.
  unfoldable pub on_request : Str → ℕ → Str → Str → Str → Handler (Unit {0})
  on_request machine sid method path body =
      if not (str_eq method (codes "POST"))
      then on_server (reply sid 405 (codes "text/plain") (codes "method not allowed"))
      else if str_eq path (codes "/machine/register")
      then on_register sid machine body
      else if str_eq path (codes "/machine/map")
      then on_map sid machine body
      else on_server (reply sid 404 (codes "text/plain") (codes "not found"))

  -- What `serve_h2` does when the loop has ended.
  unfoldable pub on_hangup : Str → Handler (Unit {0})
  on_hangup machine = do on_store (λ s. (ok tt, set_online machine false s)); bump_map
