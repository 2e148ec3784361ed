-- ===== src/Store/Codec/RoundTrip.antt =====
-- Reading back the JSON form of a key or a node (src/state.cpp).
use wirebone_cpp.Prelude.{◌≡◌, ◌<◌, ◌^◌, refl, to_i32, to_u64, pos, ok, arith, codes}
use wirebone_cpp.Json.{JsonLib}
use wirebone_cpp.Store.Types.{PreauthKey, NodeState}
use wirebone_cpp.Store.Codec.{
  key_to_json, key_from_json, node_to_json, node_from_json, key_fields, node_fields,
}

module _ (lib : JsonLib) where
  open lib use {
    Json, object, of_str, of_bool, of_int, value_str-object, value_bool-object, value_int-object,
    get_strs-array, find-object,
  }

  -- A key is read back with its time of expiry cut to 32 bits.
  pub key_from_json-key_to_json :
      (k : PreauthKey)
      → key_from_json lib (key_to_json lib k)
        ≡ ok (record k { expires_unix = to_i32 k.expires_unix })
  unfolding key_from_json key_to_json
  key_from_json-key_to_json k =
      let kvs = key_fields lib k in
      rw (
        value_str-object kvs (codes "key") _ k.key refl,
        value_bool-object kvs (codes "reusable") _ k.reusable refl,
        value_bool-object kvs (codes "ephemeral") _ k.ephemeral refl,
        value_bool-object kvs (codes "used") _ k.used refl,
        value_int-object kvs (codes "expires_unix") _ k.expires_unix refl,
        value_str-object kvs (codes "token") _ k.token refl,
        value_bool-object kvs (codes "shared") _ k.shared refl,
      )

  -- A node is read back as it was, if its id is below 2 ^ 31.
  pub node_from_json-node_to_json :
      (n : NodeState) → n.id < 2 ^ 31 → node_from_json lib (node_to_json lib n) ≡ ok n
  unfolding node_from_json node_to_json
  node_from_json-node_to_json n h =
      let kvs = node_fields lib n in
      let same_id : to_u64 (to_i32 (pos n.id)) ≡ n.id = ground arith in
      rw (
        value_int-object kvs (codes "id") _ (pos n.id) refl,
        value_str-object kvs (codes "stable_id") _ n.stable_id refl,
        value_str-object kvs (codes "hostname") _ n.hostname refl,
        value_str-object kvs (codes "machine_key") _ n.machine_key refl,
        value_str-object kvs (codes "node_key") _ n.node_key refl,
        value_str-object kvs (codes "disco_key") _ n.disco_key refl,
        value_str-object kvs (codes "ipv4") _ n.ipv4 refl,
        value_str-object kvs (codes "ipv6") _ n.ipv6 refl,
        value_bool-object kvs (codes "ephemeral") _ n.ephemeral refl,
        value_bool-object kvs (codes "online") _ n.online refl,
        value_str-object kvs (codes "token") _ n.token refl,
        value_bool-object kvs (codes "shared") _ n.shared refl,
        find-object kvs (codes "endpoints"),
        get_strs-array n.endpoints,
        same_id,
      )
