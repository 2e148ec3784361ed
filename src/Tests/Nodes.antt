-- ===== src/Tests/Nodes.antt =====
-- The registry at a store without a file.
use wirebone_cpp.Prelude.{
  ◌≡◌, ◌++◌, ◌∷◌, [], refl, true, false, none, some, Str, codes, replicate, ok, arith,
}
use wirebone_cpp.Prelude.Decimal.{to_string}
use wirebone_cpp.IpAlloc.{address_for}
use wirebone_cpp.IpAlloc.Bounds.{make-IsValid}
use wirebone_cpp.Store.Types.{NodeState, Store}
use wirebone_cpp.Store.Persist.{fresh, save, write_file, call_hook}
use wirebone_cpp.Store.Nodes.{find_by_machine, register_node, add_node, change_first}
use wirebone_cpp.Store.Nodes.Consistent.{IsConsistent}
use wirebone_cpp.Store.Nodes.Registry.{Registered, register_node_new}
use wirebone_cpp.Samples.{sample_json, sample_inet}
use wirebone_cpp.Tests.Addresses.{cidr4, cidr6, small, small_made}

abbrev pub empty : Store
empty = fresh [] small none true true

pub empty-IsConsistent : IsConsistent sample_inet empty
unfolding fresh
empty-IsConsistent = record {
  valid = make-IsValid sample_inet cidr4 cidr6 small small_made;
  id_lt = omega arith;
  apart = tt;
  issued = tt;
}

abbrev key : Str
key = codes "mkey:aa"

abbrev node_key : Str
node_key = codes "nodekey:bb"

abbrev given : Str × Str
given = (1681915905 ∷ [], replicate 12 0 ++ 0 ∷ 0 ∷ 0 ∷ 1 ∷ [])

abbrev first : NodeState
first = record {
  id = 1;
  stable_id = codes "1";
  hostname = codes "box";
  machine_key = key;
  node_key = node_key;
  disco_key = [];
  ipv4 = 1681915905 ∷ [];
  ipv6 = replicate 12 0 ++ 0 ∷ 0 ∷ 0 ∷ 1 ∷ [];
  endpoints = [];
  online = false;
  ephemeral = false;
  token = [];
  shared = true;
}

abbrev holding : Store
holding = record {
  path = [];
  alloc = small;
  noise_private = replicate 32 0;
  next_node_id = 2;
  next_ip_index = 2;
  keys = [];
  nodes = first ∷ [];
  hooked = false;
  file = none;
  can_open = true;
  can_rename = true;
  hook_calls = [];
}

pub registered :
    register_node sample_json sample_inet key node_key (codes "box") false [] true empty
    ≡ (ok first, holding)
unfolding fresh register_node add_node address_for change_first save write_file call_hook to_string
registered = refl

missing : find_by_machine key empty.nodes ≡ none
unfolding find_by_machine fresh
missing = refl

found : find_by_machine key holding.nodes ≡ some first
unfolding find_by_machine
found = refl

register_node_new_example :
    Registered sample_json sample_inet key node_key (codes "box") [] false true empty holding first
register_node_new_example =
    register_node_new sample_json sample_inet key node_key (codes "box") [] false true empty holding
      first missing registered

abbrev renamed : NodeState
renamed = record first { node_key = codes "nodekey:cc" }

abbrev after : Store
after = record holding { nodes = renamed ∷ [] }

again :
    register_node sample_json sample_inet key (codes "nodekey:cc") [] false [] true holding
    ≡ (ok renamed, after)
unfolding register_node change_first save write_file call_hook
again = refl
