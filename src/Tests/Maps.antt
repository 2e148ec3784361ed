-- ===== src/Tests/Maps.antt =====
-- Who sees whom, and the map of a small registry.
use wirebone_cpp.Prelude.{
  ℕ, ◌≡◌, ◌↔◌, ◌++◌, ◌∷◌, [], refl, true, false, some, Str, List, codes, ok, arith,
}
use wirebone_cpp.Store.Types.{NodeState}
use wirebone_cpp.Netmap.{node_visible_to, encode_map_frame}
use wirebone_cpp.Netmap.Visible.{MaySee, node_visible_to_iff}
use wirebone_cpp.Netmap.Frame.{read_frame, encode_map_frame_lem}
use wirebone_cpp.Samples.{sample_json}

abbrev pub member : ℕ → NodeState
member n = record {
  id = n;
  stable_id = n ∷ [];
  hostname = codes "host";
  machine_key = n ∷ [];
  node_key = [];
  disco_key = [];
  ipv4 = codes "100.64.0.1";
  ipv6 = codes "fd7a::1";
  endpoints = [];
  online = true;
  ephemeral = false;
  token = codes "team";
  shared = false;
}

abbrev stranger : NodeState
stranger = record (member 9) { token = codes "other" }

abbrev created : NodeState → Str
created n = codes "2024-01-01T00:00:00Z"

abbrev domain : Str
domain = codes "tail.net"

node_visible_to_iff_example :
    (node_visible_to (member 1) stranger ≡ true) ↔ MaySee (member 1) stranger
node_visible_to_iff_example = node_visible_to_iff (member 1) stranger

abbrev all_nodes : List NodeState
all_nodes = member 1 ∷ stranger ∷ member 2 ∷ []

encode_map_frame_lem_example :
    (frame : List ℕ) × (encode_map_frame sample_json (λ t. some t) (1 ∷ 1 ∷ []) true ≡ ok frame)
    × (read_frame (frame ++ 7 ∷ []) ≡ some (1 ∷ 1 ∷ [], 7 ∷ []))
encode_map_frame_lem_example =
    encode_map_frame_lem sample_json (λ t. some t) (1 ∷ 1 ∷ []) true (1 ∷ 1 ∷ []) (1 ∷ 1 ∷ [])
      (7 ∷ []) refl refl (omega arith)
