-- ===== src/Tests/Runs.antt =====
-- Sequences of calls of the store at concrete stores.
use wirebone_cpp.Prelude.{
  ℕ, pos, ◌≡◌, ◌≢◌, ◌∷◌, [], refl, true, false, none, some, codes, map, Str, List, ok, arith,
}
use wirebone_cpp.Store.Types.{Store}
use wirebone_cpp.Store.Codec.{snapshot, key_to_json}
use wirebone_cpp.Store.Persist.{
  load_json, dump_json, save, write_file, call_hook, keys_on_disk, install_keys,
  reload_keys_from_disk, fresh,
}
use wirebone_cpp.Store.Keys.{claim_key, claim_of, consume_preauth, finish_claim}
use wirebone_cpp.Store.Keys.Consume.{find_key}
use wirebone_cpp.Store.Nodes.Consistent.{IsConsistent}
use wirebone_cpp.Store.Nodes.{register_node, set_online}
use wirebone_cpp.Store.Persist.Save.{save_file}
use wirebone_cpp.Store.Persist.Reload.{reload-save}
use wirebone_cpp.Store.Keys.Repeat.{consume_from}
use wirebone_cpp.Store.Runs.Spent.{keys_on_disk-Written}
use wirebone_cpp.Store.Runs.{Step, Reach}
use wirebone_cpp.Store.Runs.Keep.{IsEarlier, Reach-IsConsistent}
use wirebone_cpp.Store.Runs.Once.{Unrevived, granted_once}
use wirebone_cpp.Store.Runs.Race.{stale_read_granted, foreign_key_lost}
use wirebone_cpp.Store.Keys.Spent.{is_spent}
use wirebone_cpp.Store.Runs.Moving.{Imports}
use wirebone_cpp.Store.Runs.Imports.{Exported}
use wirebone_cpp.Samples.{sample_json, sample_inet}
use wirebone_cpp.Tests.Nodes.{empty, empty-IsConsistent}
use wirebone_cpp.Tests.Preauth.{one_shot, in_memory}

abbrev pub machine : Str
machine = codes "mkey:aa"

abbrev registered : Store
registered = (register_node sample_json sample_inet machine (codes "n") [] false [] true empty).1

abbrev pub Anything : Store → sample_json.Json → Type 0
Anything s j = Unit {0}

abbrev pub AnyBytes : List ℕ → Type 0
AnyBytes bytes = Unit {0}

registered_twice :
    Reach sample_json sample_inet Anything AnyBytes
      (Exported sample_json (IsEarlier sample_inet))
      empty
      2
      (set_online machine true registered)
registered_twice =
    Reach.after (Reach.after Reach.here (Step.registers machine (codes "n") [] false [] true refl))
      (Step.turns machine true refl)

Reach-IsConsistent_example : IsConsistent sample_inet (set_online machine true registered)
unfolding fresh
Reach-IsConsistent_example =
    Reach-IsConsistent sample_json sample_inet Anything AnyBytes 2 empty
      (set_online machine true registered) (omega arith) (omega arith) empty-IsConsistent
      registered_twice

abbrev pub key : Str
key = codes "wbkey-1"

abbrev on_disk : Store
on_disk = record in_memory { path = codes "state.json" }

abbrev pub saved : Store
saved = (save sample_json on_disk).1

-- What the file gives.
abbrev pub loaded : Store
loaded = record saved { keys = one_shot ∷ [] }

abbrev stale : sample_json.Json
stale = sample_json.array (map (key_to_json sample_json) (one_shot ∷ []))

pub read_back : reload_keys_from_disk sample_json saved ≡ (ok tt, loaded)
unfolding save write_file call_hook snapshot
read_back = reload-save sample_json on_disk saved saved refl refl refl refl

on_file : keys_on_disk sample_json saved.path saved.file ≡ some stale
unfolding save write_file call_hook snapshot
on_file =
    keys_on_disk-Written sample_json on_disk saved refl
      (save_file sample_json on_disk saved refl refl)

abbrev pub used : Store
used = (save sample_json (record loaded { keys = record one_shot { used = true } ∷ [] })).1

pub first_use :
    consume_preauth sample_json (pos 800) key saved ≡ (ok (some (claim_of one_shot)), used)
unfolding save write_file call_hook snapshot claim_key finish_claim
first_use = consume_from sample_json (pos 800) key saved loaded read_back

-- Another store, in which the key was used, and its export.
abbrev elsewhere : Store
elsewhere = record in_memory { keys = record one_shot { used = true } ∷ [] }

abbrev exported : Str
exported = snapshot sample_json elsewhere

elsewhere-Export : Exported sample_json (Unrevived sample_json sample_inet key) used exported
unfolding dump_json is_spent snapshot
elsewhere-Export = record {
  origin = elsewhere;
  storable = record {
    private_length = refl;
    private_bytes = omega arith;
    id_fits = omega arith;
    index_fits = omega arith;
    keys_fit = (refl, tt);
    nodes_fit = tt;
  };
  dumped = refl;
  holds = refl;
}

abbrev restored : Store
restored = (load_json sample_json exported used).1

granted_once_example :
    (consume_preauth sample_json (pos 802) key (set_online machine true restored)).0
    ≢ ok (some (claim_of one_shot))
unfolding find_key
granted_once_example =
    granted_once sample_json sample_inet key (pos 800) (pos 802) 2 saved loaded used
      (set_online machine true restored) one_shot (claim_of one_shot) (claim_of one_shot) read_back
      refl refl first_use
      (Reach.after (Reach.after Reach.here (Step.imports exported elsewhere-Export refl))
        (Step.turns machine true refl))

abbrev overwritten : Store
overwritten = (install_keys sample_json (some stale) used).1

stale_read_granted_example :
    (finish_claim sample_json (claim_key (pos 800) key overwritten.keys) overwritten).0
    ≡ ok (some (claim_of one_shot))
stale_read_granted_example =
    stale_read_granted sample_json (pos 800) key saved loaded used stale (claim_of one_shot) on_file
      read_back first_use

foreign_key_lost_example :
    (consume_preauth sample_json (pos 800) (codes "wbkey-2") saved).0 ≡ ok none
unfolding find_key save write_file call_hook snapshot
foreign_key_lost_example =
    foreign_key_lost sample_json (pos 800) (codes "wbkey-2") on_disk saved refl refl refl
