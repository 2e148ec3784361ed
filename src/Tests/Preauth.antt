-- ===== src/Tests/Preauth.antt =====
-- Keys that are consumed at concrete stores.
use wirebone_cpp.Prelude.{pos, ◌≡◌, ◌∷◌, [], refl, true, false, none, codes, replicate, ok, arith}
use wirebone_cpp.Store.Types.{PreauthKey, Store}
use wirebone_cpp.Store.Persist.{save, write_file, call_hook}
use wirebone_cpp.Store.Codec.{snapshot}
use wirebone_cpp.Store.Keys.{consume_preauth}
use wirebone_cpp.Store.Keys.Consume.{find_key}
use wirebone_cpp.Store.Keys.Repeat.{consume_preauth_late_expiry}
use wirebone_cpp.Samples.{sample_json}
use wirebone_cpp.Tests.Addresses.{small}

abbrev pub one_shot : PreauthKey
one_shot = record {
  key = codes "wbkey-1";
  reusable = false;
  ephemeral = true;
  used = false;
  expires_unix = pos 900;
  token = codes "team";
  shared = false;
}

abbrev pub in_memory : Store
in_memory = record {
  path = [];
  alloc = small;
  noise_private = replicate 32 64;
  next_node_id = 1;
  next_ip_index = 1;
  keys = one_shot ∷ [];
  nodes = [];
  hooked = false;
  file = none;
  can_open = true;
  can_rename = true;
  hook_calls = [];
}

abbrev late : PreauthKey
late = record one_shot { expires_unix = pos 2147483648 }

abbrev on_disk : Store
on_disk = record in_memory { path = codes "state.json"; keys = late ∷ [] }

consume_preauth_late_expiry_example :
    (consume_preauth sample_json (pos 800) (codes "wbkey-1") (save sample_json on_disk).1).0
    ≡ ok none
unfolding save write_file call_hook find_key snapshot
consume_preauth_late_expiry_example =
    consume_preauth_late_expiry sample_json on_disk (save sample_json on_disk).1 (codes "wbkey-1")
      late 2147483648 800 refl refl refl refl (omega arith) (omega arith)
