-- ===== src/Tests/Transfer.antt =====
-- State that is exported and imported, and a coordinator without keys.
use wirebone_cpp.Prelude.{ℕ, pos, ◌≡◌, refl, true, false, some, [], ◌∷◌, List, ok, replicate}
use wirebone_cpp.Store.Types.{PreauthKey}
use wirebone_cpp.Store.Codec.{snapshot}
use wirebone_cpp.Store.Persist.{dump_json, fresh, save, write_file, call_hook}
use wirebone_cpp.Store.Keys.{claim_key, create_preauth_key, preauth_keys, random_token}
use wirebone_cpp.Coordinator.Control.{Impl, default_config, export_state, import_state, bootstrap}
use wirebone_cpp.Coordinator.Control.Transfer.{ShowsAs, import_state-export_state}
use wirebone_cpp.Coordinator.Control.Bootstrap.{open_claim, bootstrap-granted}
use wirebone_cpp.Samples.{sample_json}
use wirebone_cpp.Tests.Saved.{stored, stored-IsStorable, blank}

abbrev blank_impl : Impl
blank_impl = record {
  cfg = default_config;
  store = blank;
  bootstrap_key = [];
  map_gen = 1;
  hook_given = false;
}

abbrev source : Impl
source = record blank_impl { store = stored }

import_state-export_state_example :
    ((import_state sample_json (snapshot sample_json stored) blank_impl).0 ≡ ok tt)
    × ShowsAs sample_json source
        (import_state sample_json (snapshot sample_json stored) blank_impl).1
unfolding export_state dump_json snapshot
import_state-export_state_example =
    import_state-export_state sample_json source blank_impl (snapshot sample_json stored)
      stored-IsStorable refl

abbrev key_bytes : List ℕ
key_bytes = replicate 32 5

abbrev keyed : Impl
keyed = record blank_impl {
  store = record blank {
    keys =
        record {
          key = random_token key_bytes;
          reusable = true;
          ephemeral = false;
          used = false;
          expires_unix = pos 0;
          token = [];
          shared = true;
        }
        ∷ [];
  };
  bootstrap_key = random_token key_bytes;
}

made : bootstrap sample_json (some key_bytes) (pos 10) blank_impl ≡ ok keyed
unfolding bootstrap preauth_keys create_preauth_key save write_file call_hook fresh
made = refl

bootstrap-granted_example :
    (k : PreauthKey) × (keyed.store.keys ≡ k ∷ [])
    × (k.key ≡ keyed.bootstrap_key)
    × (used : List PreauthKey) × (claim_key (pos 99) keyed.bootstrap_key keyed.store.keys
        ≡ some (open_claim, used))
    × (claim_key (pos 999) keyed.bootstrap_key used ≡ some (open_claim, used))
unfolding fresh
bootstrap-granted_example =
    bootstrap-granted sample_json (some key_bytes) (pos 10) (pos 99) (pos 999) blank_impl keyed refl
      made
