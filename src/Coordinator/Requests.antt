-- ===== src/Coordinator/Requests.antt =====
-- How the handlers of src/coordinator.cpp read the JSON of a request.
use wirebone_cpp.Prelude.{
  ℤ, pos, ltb_ℤ, Bool, false, not, ◌&&◌, Option, none, some, List, [], ◌∷◌, Str, codes, is_empty,
  str_eq, Outcome, ok, Fault, or_throw, if◌then◌else◌,
}
use wirebone_cpp.Prelude.Chain.{◌>>=◌}
use wirebone_cpp.Json.{JsonLib}
use wirebone_cpp.Store.Codec.{field_str, field_bool, field_int}

pub record RegisterRequest : Type 0 where
  pub node_key : Str
  pub host : Str
  pub auth : Str
  pub ephemeral : Bool

pub record MapRequest : Type 0 where
  pub version : ℤ
  pub stream : Bool
  pub omit_peers : Bool
  pub zstd : Bool
  pub node_key : Str
  pub disco_key : Str
  pub host : Str

-- A stream of a client that sends its updates elsewhere.
abbrev pub readonly : MapRequest → Bool
readonly r = r.stream && not (ltb_ℤ r.version (pos 68))

module _ (lib : JsonLib) where
  open lib use {Json, is_object, is_array, is_string, find, items, get_str, parse}

  -- `none` where the text is not JSON.
  abbrev pub parse_body : Str → Option Json
  parse_body body = parse (if is_empty body then codes "{}" else body)

  unfoldable pub hostname_from_hostinfo : Json → Outcome Str
  hostname_from_hostinfo req = elim (find req (codes "Hostinfo")) [
    | none ↦ ok []
    | some info ↦ if is_object info then field_str lib info (codes "Hostname") [] else ok []
  ]

  unfoldable pub string_items : List Json → List Str
  string_items [] = []
  string_items (j ∷ js) =
      let rest = string_items js in
      if is_string j then (elim (get_str j) [ none ↦ rest | some s ↦ s ∷ rest ]) else rest

  unfoldable pub endpoints_from_req : Json → List Str
  endpoints_from_req req = elim (find req (codes "Endpoints")) [
    | none ↦ []
    | some list ↦ if is_array list then string_items (items list) else []
  ]

  -- The member "Auth".
  unfoldable pub auth_member : Option Json → Outcome Str
  auth_member none = ok []
  auth_member (some auth) =
      if is_object auth
      then (field_str lib auth (codes "AuthKey") [] >>= λ key.
          if is_empty key then field_str lib auth (codes "authKey") [] else ok key)
      else if is_string auth
      then or_throw Fault.type_error (get_str auth)
      else ok []

  unfoldable pub auth_from_req : Json → Outcome Str
  auth_from_req req = do
    auth ← auth_member (find req (codes "Auth"))
    if is_empty auth then field_str lib req (codes "AuthKey") [] else ok auth

  unfoldable pub register_request : Json → Outcome RegisterRequest
  register_request req = do
    node_key ← field_str lib req (codes "NodeKey") []
    host ← hostname_from_hostinfo req
    auth ← auth_from_req req
    ephemeral ← field_bool lib req (codes "Ephemeral") false
    ok (record { node_key = node_key; host = host; auth = auth; ephemeral = ephemeral })

  unfoldable pub map_request : Json → Outcome MapRequest
  map_request req = do
    version ← field_int lib req (codes "Version") (pos 0)
    stream ← field_bool lib req (codes "Stream") false
    omit_peers ← field_bool lib req (codes "OmitPeers") false
    compress ← field_str lib req (codes "Compress") []
    node_key ← field_str lib req (codes "NodeKey") []
    disco_key ← field_str lib req (codes "DiscoKey") []
    host ← hostname_from_hostinfo req
    ok (record {
      version = version;
      stream = stream;
      omit_peers = omit_peers;
      zstd = str_eq compress (codes "zstd");
      node_key = node_key;
      disco_key = disco_key;
      host = host;
    })
