-- ===== src/Tests/Saved.antt =====
-- A store that is saved and loaded again.
use wirebone_cpp.Prelude.{pos, ◌≡◌, ◌∷◌, [], refl, true, false, none, codes, replicate, ok, arith}
use wirebone_cpp.Store.Types.{PreauthKey, NodeState, Store}
use wirebone_cpp.Store.Codec.{snapshot}
use wirebone_cpp.Store.Persist.{save, write_file, call_hook, load_or_init, fresh}
use wirebone_cpp.Store.Persist.Restore.{IsStorable}
use wirebone_cpp.Store.Persist.Reload.{take_over, load_or_init-save}
use wirebone_cpp.Samples.{sample_json}
use wirebone_cpp.Tests.Addresses.{small}

abbrev some_key : PreauthKey
some_key = record {
  key = codes "k";
  reusable = true;
  ephemeral = false;
  used = false;
  expires_unix = pos 900;
  token = [];
  shared = true;
}

abbrev some_node : NodeState
some_node = record {
  id = 1;
  stable_id = codes "1";
  hostname = codes "a";
  machine_key = codes "m";
  node_key = codes "n";
  disco_key = [];
  ipv4 = codes "4";
  ipv6 = codes "6";
  endpoints = codes "e" ∷ [];
  online = true;
  ephemeral = false;
  token = [];
  shared = true;
}

abbrev pub stored : Store
stored = record {
  path = codes "s";
  alloc = small;
  noise_private = replicate 32 64;
  next_node_id = 2;
  next_ip_index = 2;
  keys = some_key ∷ [];
  nodes = some_node ∷ [];
  hooked = false;
  file = none;
  can_open = true;
  can_rename = true;
  hook_calls = [];
}

pub stored-IsStorable : IsStorable stored
stored-IsStorable = record {
  private_length = refl;
  private_bytes = omega arith;
  id_fits = omega arith;
  index_fits = omega arith;
  keys_fit = (refl, tt);
  nodes_fit = (omega arith, tt);
}

abbrev start : Store
start = fresh (codes "s") small (save sample_json stored).1.file true true

load_or_init-save_example :
    load_or_init sample_json (replicate 32 1) start ≡ (ok tt, take_over stored start)
unfolding save write_file call_hook snapshot
load_or_init-save_example =
    load_or_init-save sample_json stored (save sample_json stored).1 (replicate 32 1) small true
      true stored-IsStorable (λ e. cc) refl refl

abbrev pub blank : Store
blank = fresh [] small none true true
