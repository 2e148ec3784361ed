-- ===== src/Store/Runs/Imports.antt =====
-- Texts that load_json restores: what dump_json made of some store (src/state.cpp).
use wirebone_cpp.Prelude.{◌≡◌, ap, Str, Outcome, ok}
use wirebone_cpp.Json.{JsonLib}
use wirebone_cpp.Store.Types.{Store}
use wirebone_cpp.Store.Persist.{dump_json, load_json}
use wirebone_cpp.Store.Persist.Restore.{IsStorable}
use wirebone_cpp.Store.Persist.Reload.{take_over, load_json-dump_json}

module _ (lib : JsonLib) where
  -- The text is the export of a store with that property, of which every number fits an int.
  pub record Export (P : Store → Type 0) (text : Str) : Type 0 where
    pub origin : Store
    pub storable : IsStorable origin
    pub dumped : dump_json lib origin ≡ ok text
    pub holds : P origin

  -- The texts that may be imported where the property relates the store to the exported one.
  abbrev pub Exported : (Store → Store → Type 0) → Store → Str → Type 0
  Exported P s text = Export (P s) text

  -- An import takes over what was exported.
  pub load_json-Export :
      (P : Store → Type 0) (s : Store) (text : Str) (x : Export P text)
      → (load_json lib text s).1 ≡ take_over x.origin s
  load_json-Export P s text x =
      ap (λ (q : Outcome (Unit {0}) × Store). q.1)
        (load_json-dump_json lib x.origin s text x.storable x.dumped)
