-- ===== src/Store/Nodes.antt =====
-- Nodes: register_node, find_by_machine, find_by_node, nodes, update_map_info and set_online
-- (src/state.cpp).
pub mod Registry
pub mod Consistent
pub mod Added
pub mod Preserve
use wirebone_cpp.Prelude.{
  ℕ, ◌+◌, ◌%◌, ◌^◌, Bool, true, false, Option, none, some, List, [], ◌∷◌, ◌++◌, Str, codes,
  is_empty, str_eq, Outcome, ok, throws, if◌then◌else◌,
}
use wirebone_cpp.Prelude.Decimal.{to_string}
use wirebone_cpp.Json.{JsonLib}
use wirebone_cpp.IpAlloc.{Inet, address_for}
use wirebone_cpp.Store.Types.{NodeState, Store, M, ◌>>=◌, ◌>>◌, next, lift, modify, gets}
use wirebone_cpp.Store.Persist.{save}

abbrev pub keep_node :
    NodeState → Option (NodeState × List NodeState) → Option (NodeState × List NodeState)
keep_node n none = none
keep_node n (some (m, ns)) = some (m, n ∷ ns)

-- The loops `for (auto& n : nodes_)` that change the first node of that machine key and stop.
unfoldable pub change_first :
    Str → (NodeState → NodeState) → List NodeState → Option (NodeState × List NodeState)
change_first machine_key f [] = none
change_first machine_key f (n ∷ ns) =
    if str_eq n.machine_key machine_key
    then some (f n, f n ∷ ns)
    else keep_node n (change_first machine_key f ns)

abbrev pub or_keep : Str → Str → Str
or_keep new old = if is_empty new then old else new

-- The branch of `register_node` for a machine that is known.
abbrev pub reregistered : Str → Str → Bool → NodeState → NodeState
reregistered node_key hostname ephemeral n = record n {
  node_key = node_key;
  hostname = or_keep hostname n.hostname;
  ephemeral = ephemeral;
}

abbrev pub new_node : ℕ → Str → Str → Str → Bool → Str → Bool → Str × Str → NodeState
new_node id machine_key node_key hostname ephemeral token shared (v4, v6) = record {
  id = id;
  stable_id = to_string id;
  hostname = if is_empty hostname then codes "node-" ++ to_string id else hostname;
  machine_key = machine_key;
  node_key = node_key;
  disco_key = [];
  ipv4 = v4;
  ipv6 = v6;
  endpoints = [];
  online = false;
  ephemeral = ephemeral;
  token = token;
  shared = shared;
}

unfoldable pub find_by_machine : Str → List NodeState → Option NodeState
find_by_machine key [] = none
find_by_machine key (n ∷ ns) = if str_eq n.machine_key key then some n else find_by_machine key ns

unfoldable pub find_by_node : Str → List NodeState → Option NodeState
find_by_node key [] = none
find_by_node key (n ∷ ns) = if str_eq n.node_key key then some n else find_by_node key ns

abbrev pub map_info : Str → Str → Str → List Str → NodeState → NodeState
map_info node_key disco_key hostname endpoints n = record n {
  node_key = or_keep node_key n.node_key;
  disco_key = or_keep disco_key n.disco_key;
  hostname = or_keep hostname n.hostname;
  endpoints = endpoints;
  online = true;
}

-- `set_online` does not save.
unfoldable pub set_online : Str → Bool → Store → Store
set_online machine_key online s =
    elim (change_first machine_key (λ n. record n { online = online }) s.nodes) [
      | none ↦ s
      | some (n, ns) ↦ record s { nodes = ns }
    ]

module _ (lib : JsonLib) (inet : Inet) where
  -- Both counters are stepped before `address_for` may throw. A `uint64_t` and a `uint32_t` wrap.
  unfoldable pub add_node : Str → Str → Str → Bool → Str → Bool → M NodeState
  add_node machine_key node_key hostname ephemeral token shared = do
    id ← gets (λ s. s.next_node_id)
    index ← gets (λ s. s.next_ip_index)
    modify
        (λ s. record s { next_node_id = (id + 1) % 2 ^ 64; next_ip_index = (index + 1) % 2 ^ 32 })
    addresses ← (λ s. (address_for inet s.alloc index, s))
    let n = new_node id machine_key node_key hostname ephemeral token shared addresses
    modify (λ s. record s { nodes = s.nodes ++ n ∷ [] })
    save lib
    lift (ok n)

  unfoldable pub register_node : Str → Str → Str → Bool → Str → Bool → M NodeState
  register_node machine_key node_key hostname ephemeral token shared s =
      elim (change_first machine_key (reregistered node_key hostname ephemeral) s.nodes) [
        | some (n, ns) ↦ next (save lib (record s { nodes = ns })) (λ _. lift (ok n))
        | none ↦ add_node machine_key node_key hostname ephemeral token shared s
      ]

  unfoldable pub update_map_info : Str → Str → Str → Str → List Str → M (Unit {0})
  update_map_info machine_key node_key disco_key hostname endpoints s =
      elim (change_first machine_key (map_info node_key disco_key hostname endpoints) s.nodes) [
        | some (n, ns) ↦ save lib (record s { nodes = ns })
        | none ↦ (ok tt, s)
      ]
