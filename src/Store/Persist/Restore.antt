-- ===== src/Store/Persist/Restore.antt =====
-- A saved store is restored: apply_snapshot_locked after snapshot_locked (src/state.cpp).
use wirebone_cpp.Prelude.{
  ℕ, ◌≡◌, ◌<◌, ◌^◌, refl, to_i32, to_u64, to_u32, pos, to_u32-to_i32, ok, arith, some, Outcome,
  codes, List, [], ◌∷◌, All, IsByte, length, map, sym, ◌∙◌,
}
use wirebone_cpp.Crypto.Hex.{hex_encode, hex_decode-hex_encode}
use wirebone_cpp.Json.{JsonLib}
use wirebone_cpp.Store.Types.{PreauthKey, NodeState, Store}
use wirebone_cpp.Store.Codec.{
  snapshot, snapshot_fields, key_to_json, key_from_json, node_to_json, node_from_json,
}
use wirebone_cpp.Store.Codec.RoundTrip.{key_from_json-key_to_json, node_from_json-node_to_json}
use wirebone_cpp.Store.Persist.{
  push_all, apply_snapshot, zero32, restore_private, restore_keys, restore_nodes,
}

-- A time of expiry that an `int` holds.
abbrev pub FitsInt : PreauthKey → Type 0
FitsInt k = to_i32 k.expires_unix ≡ k.expires_unix

abbrev pub SmallId : NodeState → Type 0
SmallId n = n.id < 2 ^ 31

-- What the JSON form keeps: a key of 32 bytes, and numbers that an `int` holds.
pub record IsStorable (s : Store) : Type 0 where
  pub private_length : length s.noise_private ≡ 32
  pub private_bytes : All IsByte s.noise_private
  pub id_fits : s.next_node_id < 2 ^ 31
  pub index_fits : s.next_ip_index < 2 ^ 32
  pub keys_fit : All FitsInt s.keys
  pub nodes_fit : All SmallId s.nodes

push_all-map :
    {A J : Type 0} (read : J → Outcome A) (write : A → J) (f : A → A) (xs : List A)
    → All (λ x. read (write x) ≡ ok (f x)) xs
    → push_all read (map write xs) ≡ (ok tt, map f xs)
unfolding push_all
push_all-map read write f [] h = refl
push_all-map read write f (x ∷ xs) (hx, h) = rw (hx, push_all-map read write f xs h)

-- What reloading does to a key.
abbrev pub cut_expiry : PreauthKey → PreauthKey
cut_expiry k = record k { expires_unix = to_i32 k.expires_unix }

module _ (lib : JsonLib) where
  open lib use {
    Json, of_str, array, object, items, find-object, items-array, get_str-of_str, value_int-object,
  }

  keys_read :
      (ks : List PreauthKey)
      → All (λ k. key_from_json lib (key_to_json lib k) ≡ ok (cut_expiry k)) ks
  keys_read [] = tt
  keys_read (k ∷ ks) = (key_from_json-key_to_json lib k, keys_read ks)

  nodes_read :
      (ns : List NodeState)
      → All SmallId ns
      → All (λ n. node_from_json lib (node_to_json lib n) ≡ ok n) ns
  nodes_read [] h = tt
  nodes_read (n ∷ ns) (hn, h) = (node_from_json-node_to_json lib n hn, nodes_read ns h)

  pub restore_keys-map :
      (ks : List PreauthKey) (t : Store)
      → restore_keys lib (some (array (map (key_to_json lib) ks))) t
        ≡ (ok tt, record t { keys = map cut_expiry ks })
  unfolding restore_keys
  restore_keys-map ks t = rw (
    items-array (map (key_to_json lib) ks),
    push_all-map (key_from_json lib) (key_to_json lib) cut_expiry ks (keys_read ks),
  )

  map_id : (ns : List NodeState) → map (λ n. n) ns ≡ ns
  map_id [] = refl
  map_id (n ∷ ns) = rw (map_id ns)

  restore_nodes-map :
      (ns : List NodeState) (t : Store)
      → All SmallId ns
      → restore_nodes lib (some (array (map (node_to_json lib) ns))) t
        ≡ (ok tt, record t { nodes = ns })
  unfolding restore_nodes
  restore_nodes-map ns t h = rw (
    items-array (map (node_to_json lib) ns),
    push_all-map (node_from_json lib) (node_to_json lib) (λ n. n) ns (nodes_read ns h),
    map_id ns,
  )

  restore_private-hex :
      (raw : List ℕ) (t : Store)
      → length raw ≡ 32
      → All IsByte raw
      → restore_private lib (some (of_str (hex_encode raw))) t
        ≡ (ok tt, record t { noise_private = raw })
  unfolding restore_private
  restore_private-hex raw t len bytes =
      rw (get_str-of_str (hex_encode raw), hex_decode-hex_encode raw zero32 bytes (sym len))

  -- The parts of the store that a snapshot holds, put into another store.
  abbrev pub restored : Store → Store → Store
  restored s t = record t {
    noise_private = s.noise_private;
    next_node_id = s.next_node_id;
    next_ip_index = s.next_ip_index;
    keys = map cut_expiry s.keys;
    nodes = s.nodes;
  }

  pub apply_snapshot-snapshot :
      (s t : Store) → IsStorable s → apply_snapshot lib (snapshot lib s) t ≡ (ok tt, restored s t)
  unfolding apply_snapshot snapshot
  apply_snapshot-snapshot s t h =
      let kvs = snapshot_fields lib s in
      let same_id : to_u64 (to_i32 (pos s.next_node_id)) ≡ s.next_node_id =
        grind (arith, h.id_fits) in
      let same_index : to_u32 (to_i32 (pos s.next_ip_index)) ≡ s.next_ip_index =
        to_u32-to_i32 (pos s.next_ip_index) ∙ omega (arith, h.index_fits) in
      rw (
        find-object kvs (codes "noise_private"),
        restore_private-hex s.noise_private t h.private_length h.private_bytes,
        value_int-object kvs (codes "next_node_id") _ (pos s.next_node_id) refl,
        value_int-object kvs (codes "next_ip_index") _ (pos s.next_ip_index) refl,
        same_id,
        same_index,
        find-object kvs (codes "preauth_keys"),
        restore_keys-map s.keys _,
        find-object kvs (codes "nodes"),
        restore_nodes-map s.nodes _ h.nodes_fit,
      )
