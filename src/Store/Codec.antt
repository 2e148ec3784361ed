-- ===== src/Store/Codec.antt =====
-- The JSON forms of the store's records: snapshot_locked, key_from_json and the reading of nodes
-- in apply_snapshot_locked (src/state.cpp).
pub mod RoundTrip
use wirebone_cpp.Prelude.{
  ℕ, Bool, true, false, Option, none, some, List, [], ◌∷◌, ◌++◌, map, Str, codes, is_empty, ℤ, pos,
  to_u64, Outcome, ok, throws, Fault, or_throw,
}
use wirebone_cpp.Prelude.Chain.{◌>>=◌}
use wirebone_cpp.Crypto.Hex.{hex_encode}
use wirebone_cpp.Json.{JsonLib}
use wirebone_cpp.Store.Types.{PreauthKey, NodeState, Store}

module _ (lib : JsonLib) where
  open lib use {
    Json, of_str, of_bool, of_int, array, object, find, value_str, value_bool, value_int, get_strs,
  }

  abbrev pub key_fields : PreauthKey → List (Str × Json)
  key_fields k =
      (codes "key", of_str k.key)
      ∷ (codes "reusable", of_bool k.reusable)
      ∷ (codes "ephemeral", of_bool k.ephemeral)
      ∷ (codes "used", of_bool k.used)
      ∷ (codes "expires_unix", of_int k.expires_unix)
      ∷ (codes "token", of_str k.token)
      ∷ (codes "shared", of_bool k.shared)
      ∷ []

  pub key_to_json : PreauthKey → Json
  key_to_json k = object (key_fields k)

  abbrev pub node_fields : NodeState → List (Str × Json)
  node_fields n =
      (codes "id", of_int (pos n.id))
      ∷ (codes "stable_id", of_str n.stable_id)
      ∷ (codes "hostname", of_str n.hostname)
      ∷ (codes "machine_key", of_str n.machine_key)
      ∷ (codes "node_key", of_str n.node_key)
      ∷ (codes "disco_key", of_str n.disco_key)
      ∷ (codes "ipv4", of_str n.ipv4)
      ∷ (codes "ipv6", of_str n.ipv6)
      ∷ (codes "endpoints", array (map of_str n.endpoints))
      ∷ (codes "ephemeral", of_bool n.ephemeral)
      ∷ (codes "online", of_bool n.online)
      ∷ (codes "token", of_str n.token)
      ∷ (codes "shared", of_bool n.shared)
      ∷ []

  pub node_to_json : NodeState → Json
  node_to_json n = object (node_fields n)

  abbrev pub snapshot_fields : Store → List (Str × Json)
  snapshot_fields s =
      (codes "noise_private", of_str (hex_encode s.noise_private))
      ∷ (codes "next_node_id", of_int (pos s.next_node_id))
      ∷ (codes "next_ip_index", of_int (pos s.next_ip_index))
      ∷ (codes "preauth_keys", array (map key_to_json s.keys))
      ∷ (codes "nodes", array (map node_to_json s.nodes))
      ∷ []

  -- `snapshot_locked`
  unfoldable pub snapshot : Store → Json
  unfolding key_to_json node_to_json
  snapshot s = object (snapshot_fields s)

  abbrev pub field_str : Json → Str → Str → Outcome Str
  field_str j k d = or_throw Fault.type_error (value_str j k d)

  abbrev pub field_bool : Json → Str → Bool → Outcome Bool
  field_bool j k d = or_throw Fault.type_error (value_bool j k d)

  abbrev pub field_int : Json → Str → ℤ → Outcome ℤ
  field_int j k d = or_throw Fault.type_error (value_int j k d)

  unfoldable pub key_from_json : Json → Outcome PreauthKey
  key_from_json j = do
    key ← field_str j (codes "key") []
    reusable ← field_bool j (codes "reusable") true
    ephemeral ← field_bool j (codes "ephemeral") false
    used ← field_bool j (codes "used") false
    expires_unix ← field_int j (codes "expires_unix") (pos 0)
    token ← field_str j (codes "token") []
    shared ← field_bool j (codes "shared") (is_empty token)
    ok (record {
      key = key;
      reusable = reusable;
      ephemeral = ephemeral;
      used = used;
      expires_unix = expires_unix;
      token = token;
      shared = shared;
    })

  -- `if (n.contains("endpoints"))`
  abbrev pub endpoints_of : Option Json → Outcome (List Str)
  endpoints_of none = ok []
  endpoints_of (some j) = or_throw Fault.type_error (get_strs j)

  unfoldable pub node_from_json : Json → Outcome NodeState
  node_from_json j = do
    id ← field_int j (codes "id") (pos 0)
    stable_id ← field_str j (codes "stable_id") []
    hostname ← field_str j (codes "hostname") []
    machine_key ← field_str j (codes "machine_key") []
    node_key ← field_str j (codes "node_key") []
    disco_key ← field_str j (codes "disco_key") []
    ipv4 ← field_str j (codes "ipv4") []
    ipv6 ← field_str j (codes "ipv6") []
    ephemeral ← field_bool j (codes "ephemeral") false
    online ← field_bool j (codes "online") false
    token ← field_str j (codes "token") []
    shared ← field_bool j (codes "shared") (is_empty token)
    endpoints ← endpoints_of (find j (codes "endpoints"))
    ok (record {
      id = to_u64 id;
      stable_id = stable_id;
      hostname = hostname;
      machine_key = machine_key;
      node_key = node_key;
      disco_key = disco_key;
      ipv4 = ipv4;
      ipv6 = ipv6;
      endpoints = endpoints;
      online = online;
      ephemeral = ephemeral;
      token = token;
      shared = shared;
    })
