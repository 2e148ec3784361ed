-- ===== src/Coordinator/Control/Transfer.antt =====
-- The state that one coordinator exports and another imports (src/coordinator.cpp, src/state.cpp).
use wirebone_cpp.Prelude.{◌≡◌, refl, Str, ok}
use wirebone_cpp.Json.{JsonLib}
use wirebone_cpp.Store.Persist.Restore.{IsStorable}
use wirebone_cpp.Store.Persist.Reload.{load_json-dump_json}
use wirebone_cpp.Store.Keys.{preauth_keys}
use wirebone_cpp.Coordinator.Control.{
  Impl, export_state, import_state, list_nodes, list_preauth_keys, first_key,
}

module _ (lib : JsonLib) where
  -- A coordinator that shows what another one does.
  pub record ShowsAs (c d : Impl) : Type 0 where
    pub same_nodes : list_nodes d ≡ list_nodes c
    pub same_keys : list_preauth_keys d ≡ list_preauth_keys c
    pub same_private : d.store.noise_private ≡ c.store.noise_private
    pub first_bootstrap : d.bootstrap_key ≡ first_key c.store.keys

  -- Where every number fits an `int`, the text that a coordinator exports is imported by any other
  -- without an exception, which then lists the same nodes and preauth keys, has the same
  -- Noise key, and takes the first of these keys as its bootstrap key.
  pub import_state-export_state :
      (c d : Impl) (text : Str)
      → IsStorable c.store
      → export_state lib c ≡ ok text
      → ((import_state lib text d).0 ≡ ok tt) × ShowsAs c (import_state lib text d).1
  unfolding import_state export_state preauth_keys list_nodes list_preauth_keys
  import_state-export_state c d text h e = rw (load_json-dump_json lib c.store d.store text h e) (
    refl,
    record { same_nodes = refl; same_keys = refl; same_private = refl; first_bootstrap = refl },
  )
