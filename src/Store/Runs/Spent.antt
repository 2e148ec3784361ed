-- ===== src/Store/Runs/Spent.antt =====
-- A one-shot key that was consumed, along any sequence of calls (src/state.cpp).
use wirebone_cpp.Prelude.{
  ℕ, ◌≡◌, refl, sym, ap, ◌∙◌, Bool, true, false, Option, none, some, List, map, Str, ℤ, Outcome, ok,
  throws, codes, is_empty, str_eq, inl, inr, Bool-cases,
}
use wirebone_cpp.Json.{JsonLib}
use wirebone_cpp.Store.Types.{Store, PreauthKey, PreauthClaim, next}
use wirebone_cpp.Store.Codec.{snapshot, snapshot_fields, key_to_json}
use wirebone_cpp.Store.Persist.{
  save, keys_on_disk, install_keys, restore_keys, reload_keys_from_disk,
}
use wirebone_cpp.Store.Persist.Restore.{restore_keys-map}
use wirebone_cpp.Store.Persist.Save.{save_members, Written, save_either, save_file, saved_members}
use wirebone_cpp.Store.Keys.{
  random_token, create_preauth_key, consume_preauth, finish_claim, claim_key,
}
use wirebone_cpp.Store.Keys.Consume.{find_key}
use wirebone_cpp.Store.Keys.Repeat.{finish_claim_lem, consume_from}
use wirebone_cpp.Store.Keys.Spent.{
  is_spent, is_spent-claim_key, is_spent-granted, is_spent-append, is_spent-cut_expiry,
}

module _ (lib : JsonLib) where
  open lib use {Json, array, find-object}

  -- What the file gives is spent.
  abbrev pub OnDisk : Str → Str → Option Str → Type 0
  OnDisk key path file =
      (j : Json)
      → keys_on_disk lib path file ≡ some j
      → (s : Store) → is_spent key (restore_keys lib (some j) s).1.keys ≡ true

  pub record Spent (key : Str) (s : Store) : Type 0 where
    pub memory : is_spent key s.keys ≡ true
    pub disk : OnDisk key s.path s.file

  -- After a save the keys are on disk.
  pub keys_on_disk-Written :
      (s t : Store)
      → is_empty s.path ≡ false
      → Written lib s t
      → keys_on_disk lib s.path t.file ≡ some (array (map (key_to_json lib) s.keys))
  unfolding keys_on_disk snapshot
  keys_on_disk-Written s t named (text, found, reads, ne) =
      rw (named, found, reads, find-object (snapshot_fields lib s) (codes "preauth_keys"))

  Written-OnDisk :
      (key : Str) (s t : Store)
      → is_empty s.path ≡ false
      → is_spent key s.keys ≡ true
      → Written lib s t
      → OnDisk key s.path t.file
  Written-OnDisk key s t named h written = λ j e u.
      let known = keys_on_disk-Written s t named written in
      let here : j ≡ array (map (key_to_json lib) s.keys) = cc in
      rw here (rw (restore_keys-map lib s.keys u) (is_spent-cut_expiry key s.keys ∙ h))

  Memory-OnDisk : (key path : Str) (file : Option Str) → is_empty path ≡ true → OnDisk key path file
  unfolding keys_on_disk
  Memory-OnDisk key path file memory = λ j e s. cc (rw memory at e)

  -- The disk holds the keys of the store, or what it held.
  after_save-OnDisk : (key : Str) (s : Store) → Spent key s → OnDisk key s.path (save lib s).1.file
  after_save-OnDisk key s h = elim (Bool-cases (is_empty s.path)) [
    | inl memory ↦ Memory-OnDisk key s.path (save lib s).1.file memory
    | inr named ↦ elim (save_either lib s named) [
      | inl left ↦ rw left h.disk
      | inr written ↦ Written-OnDisk key s (save lib s).1 named h.memory written
    ]
  ]

  pub save-Spent : (key : Str) (s : Store) → Spent key s → Spent key (save lib s).1
  save-Spent key s h =
      let same = save_members lib s in
      let keys_same : (save lib s).1.keys ≡ s.keys = ap (λ (x : Store). x.keys) same in
      let path_same : (save lib s).1.path ≡ s.path = ap (λ (x : Store). x.path) same in
      record { memory = rw keys_same h.memory; disk = rw path_same (after_save-OnDisk key s h) }

  -- Whatever is answered after the save.
  pub answered-Spent :
      {A : Type 0} (key : Str) (a : A) (p : Outcome (Unit {0}) × Store)
      → Spent key p.1
      → Spent key (next p (λ _ t. (ok a, t))).1
  answered-Spent key a (ok u, t) h = h
  answered-Spent key a (throws f, t) h = h

  pub finish_claim-Spent :
      (now : ℤ) (other key : Str) (s : Store) (o : Option (PreauthClaim × List PreauthKey))
      → claim_key now other s.keys ≡ o
      → Spent key s
      → Spent key (finish_claim lib o s).1
  unfolding finish_claim
  finish_claim-Spent now other key s none e h = h
  finish_claim-Spent now other key s (some (c, ks)) e h =
      answered-Spent key (some c) (save lib (record s { keys = ks })) (
        save-Spent key (record s { keys = ks })
          (record {
            memory = is_spent-claim_key now other key s.keys ks c e h.memory;
            disk = h.disk;
          }))

  pub create_preauth_key-Spent :
      (key : Str) (raw : Option (List ℕ)) (now : ℤ) (reusable ephemeral : Bool) (expiration : ℤ)
      (token : Str) (shared : Option Bool) (s : Store)
      → ((bytes : List ℕ) → raw ≡ some bytes → str_eq (random_token bytes) key ≡ false)
      → Spent key s
      → Spent key (create_preauth_key lib raw now reusable ephemeral expiration token shared s).1
  unfolding create_preauth_key
  create_preauth_key-Spent key none now reusable ephemeral expiration token shared s other h = h
  create_preauth_key-Spent key (some bytes) now reusable ephemeral expiration token shared s other
        h =
      answered-Spent key (random_token bytes) (save lib _) (
        save-Spent key _ (record {
          memory = is_spent-append key s.keys _ (other bytes refl) h.memory;
          disk = h.disk;
        }))

  pub install_keys-Spent :
      (key : Str) (j : Json) (s : Store)
      → keys_on_disk lib s.path s.file ≡ some j
      → Spent key s
      → Spent key (install_keys lib (some j) s).1
  unfolding install_keys restore_keys
  install_keys-Spent key j s e h = record { memory = h.disk j e s; disk = h.disk }

  pub granted-Spent :
      (now : ℤ) (key : Str) (s t u : Store) (k : PreauthKey) (c : PreauthClaim)
      → reload_keys_from_disk lib s ≡ (ok tt, u)
      → find_key key u.keys ≡ some k
      → k.reusable ≡ false
      → consume_preauth lib now key s ≡ (ok (some c), t)
      → Spent key t
  granted-Spent now key s t u k c e f once h =
      let (ks, got, saved) =
        finish_claim_lem lib (claim_key now key u.keys) u t c
          (sym (consume_from lib now key s u e) ∙ h) in
      let w : Store = record u { keys = ks } in
      let spent : is_spent key ks ≡ true = is_spent-granted now key u.keys ks k c f once got in
      let same = saved_members lib w t saved in
      let keys_same : t.keys ≡ ks = ap (λ (x : Store). x.keys) same in
      let path_same : t.path ≡ u.path = ap (λ (x : Store). x.path) same in
      record {
        memory = rw keys_same spent;
        disk = rw path_same (elim (Bool-cases (is_empty u.path)) [
          | inl memory ↦ Memory-OnDisk key u.path t.file memory
          | inr named ↦ Written-OnDisk key w t named spent (save_file lib w t named saved)
        ]);
      }
