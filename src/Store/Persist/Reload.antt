-- ===== src/Store/Persist/Reload.antt =====
-- What is found by a load of what was saved (src/state.cpp).
use wirebone_cpp.Prelude.{
  ℕ, ◌≡◌, ◌≢◌, refl, ok, arith, Option, none, some, Bool, false, Str, codes, List, [], ◌∷◌, Fault,
  or_throw, All, map, ap, is_empty, str_eq, str_eq_iff, ok-injective,
}
use wirebone_cpp.IpAlloc.{IpAllocator}
use wirebone_cpp.Json.{JsonLib}
use wirebone_cpp.Store.Types.{PreauthKey, Store}
use wirebone_cpp.Store.Codec.{snapshot, snapshot_fields}
use wirebone_cpp.Store.Persist.{
  zero32, load_json, dump_json, reload_keys_from_disk, keys_on_disk, install_keys, load_or_init,
  load_file, save, fresh,
}
use wirebone_cpp.Store.Persist.Restore.{
  IsStorable, FitsInt, cut_expiry, apply_snapshot-snapshot, restore_keys-map,
}
use wirebone_cpp.Store.Persist.Save.{save_file}

map-cut_expiry : (ks : List PreauthKey) → All FitsInt ks → map cut_expiry ks ≡ ks
map-cut_expiry [] h = refl
map-cut_expiry (k ∷ ks) (hk, h) = rw (hk, map-cut_expiry ks h)

or_throw-eq-ok {ℓ} :
    {A : Type ℓ} (f : Fault) (o : Option A) {a : A} → or_throw f o ≡ ok a → o ≡ some a
or_throw-eq-ok f none e = cc
or_throw-eq-ok f (some b) e = ap some (ok-injective e)

-- The members of `s` that its text holds, in the place of those of `t`.
abbrev pub take_over : Store → Store → Store
take_over s t = record t {
  noise_private = s.noise_private;
  next_node_id = s.next_node_id;
  next_ip_index = s.next_ip_index;
  keys = s.keys;
  nodes = s.nodes;
}

module _ (lib : JsonLib) where
  open lib use {
    Json, find, object, array, dump, dump_indent, read, parse, find-object, parse-dump, dump_ne,
    read-dump_indent,
  }

  -- Where every number fits an `int`, the text that `dump_json` returns is restored by `load_json` in
  -- any other store.
  pub load_json-dump_json :
      (s t : Store) (text : Str)
      → IsStorable s
      → dump_json lib s ≡ ok text
      → load_json lib text t ≡ (ok tt, take_over s t)
  unfolding load_json dump_json
  load_json-dump_json s t text h e =
      let dumped = or_throw-eq-ok Fault.type_error (dump (snapshot lib s)) e in
      rw (
        dump_ne _ text dumped,
        parse-dump _ text dumped,
        apply_snapshot-snapshot lib s t h,
        map-cut_expiry s.keys h.keys_fit,
      )

  load_text :
      (s : Store) (raw : List ℕ) (alloc : IpAllocator) (can_open can_rename : Bool) (text : Str)
      → IsStorable s
      → s.noise_private ≢ zero32
      → is_empty s.path ≡ false
      → read text ≡ some (snapshot lib s)
      → is_empty text ≡ false
      → let start = fresh s.path alloc (some text) can_open can_rename in
        load_or_init lib raw start ≡ (ok tt, take_over s start)
  unfolding load_or_init load_file fresh
  load_text s raw alloc o r text h some_key named reads ne =
      let private_set : str_eq s.noise_private zero32 ≡ false =
        ground (arith, str_eq_iff s.noise_private zero32) in
      rw (
        named,
        ne,
        reads,
        apply_snapshot-snapshot lib s _ h,
        map-cut_expiry s.keys h.keys_fit,
        private_set,
      )

  -- Where every number fits an `int`, the Noise key is set and a path is given, a program that starts
  -- on the file of a saved store goes on with its key, counters, preauth keys and nodes.
  pub load_or_init-save :
      (s t : Store) (raw : List ℕ) (alloc : IpAllocator) (can_open can_rename : Bool)
      → IsStorable s
      → s.noise_private ≢ zero32
      → is_empty s.path ≡ false
      → save lib s ≡ (ok tt, t)
      → let start = fresh s.path alloc t.file can_open can_rename in
        load_or_init lib raw start ≡ (ok tt, take_over s start)
  load_or_init-save s t raw alloc o r h some_key named saved =
      let (text, found, reads, ne) = save_file lib s t named saved in
      rw found (load_text s raw alloc o r text h some_key named reads ne)

  -- After a save the file gives back the keys, each with its expiry cut to an `int`.
  pub reload-save :
      (s t u : Store)
      → is_empty s.path ≡ false
      → save lib s ≡ (ok tt, t)
      → u.path ≡ s.path
      → u.file ≡ t.file
      → reload_keys_from_disk lib u ≡ (ok tt, record u { keys = map cut_expiry s.keys })
  unfolding reload_keys_from_disk keys_on_disk install_keys snapshot
  reload-save s t u named saved same_path same_file =
      let (text, found, reads, ne) = save_file lib s t named saved in
      simp (
        same_path,
        named,
        same_file,
        found,
        reads,
        find-object (snapshot_fields lib s) (codes "preauth_keys"),
        restore_keys-map lib s.keys u,
      )
