-- ===== src/Store/Runs/Race.antt =====
-- Two calls of consume_preauth at once: the file is read before the lock is taken (src/state.cpp).
use wirebone_cpp.Prelude.{
  map, is_empty, false, none, [], ◌∷◌, ◌≡◌, refl, sym, ap, ◌∙◌, arith, Option, some, List, Str, ℤ,
  Outcome, ok, throws,
}
use wirebone_cpp.Json.{JsonLib}
use wirebone_cpp.Store.Types.{Store, PreauthKey, PreauthClaim, next}
use wirebone_cpp.Store.Codec.{snapshot}
use wirebone_cpp.Store.Persist.{
  save, write_file, call_hook, keys_on_disk, install_keys, reload_keys_from_disk, restore_keys,
}
use wirebone_cpp.Store.Persist.Save.{saved_members}
use wirebone_cpp.Store.Persist.Reload.{reload-save}
use wirebone_cpp.Store.Keys.{consume_preauth, finish_claim, claim_key}
use wirebone_cpp.Store.Persist.Restore.{cut_expiry}
use wirebone_cpp.Store.Keys.Consume.{find_key, claim_key-granted}
use wirebone_cpp.Store.Keys.Repeat.{finish_claim_lem, consume_from}

module _ (lib : JsonLib) where
  -- The same members but for the file and the calls of the hook.
  abbrev Twin : Store → Store → Type 0
  Twin s t = t ≡ record s { file = t.file; hook_calls = t.hook_calls }

  save_again :
      (s : Store) (file : Option Str) (calls : List Str)
      → (save lib (record s { file = file; hook_calls = calls })).0 ≡ (save lib s).0
  unfolding save write_file call_hook snapshot
  save_again s file calls = ground arith

  granted_with :
      (claim : PreauthClaim) (p : Outcome (Unit {0}) × Store)
      → p.0 ≡ ok tt
      → (next p (λ _ v. (ok (some claim), v))).0 ≡ ok (some claim)
  granted_with claim (ok u, t) e = refl
  granted_with claim (throws f, t) e = cc

  -- What a text gives does not hang on the store that it is put into.
  install_anywhere :
      (j : lib.Json) (s t u : Store)
      → install_keys lib (some j) s ≡ (ok tt, u)
      → install_keys lib (some j) t ≡ (ok tt, record t { keys = u.keys })
  unfolding install_keys restore_keys
  install_anywhere j s t u e = λ i. ((e i).0, record t { keys = (e i).1.keys })

  reload_text :
      (j : lib.Json) (s : Store)
      → keys_on_disk lib s.path s.file ≡ some j
      → install_keys lib (some j) s ≡ reload_keys_from_disk lib s
  unfolding reload_keys_from_disk
  reload_text j s e = ap (λ o. install_keys lib o s) (sym e)

  -- Two calls for one key, of which the second has read the file before the first one was granted,
  -- and takes the lock after it: where the first is granted, so is the second, whether or not the key
  -- is reusable.
  pub stale_read_granted :
      (now : ℤ) (key : Str) (s u t : Store) (j : lib.Json) (c : PreauthClaim)
      → keys_on_disk lib s.path s.file ≡ some j
      → reload_keys_from_disk lib s ≡ (ok tt, u)
      → consume_preauth lib now key s ≡ (ok (some c), t)
      → let w = (install_keys lib (some j) t).1 in
        (finish_claim lib (claim_key now key w.keys) w).0 ≡ ok (some c)
  unfolding finish_claim
  stale_read_granted now key s u t j c stale e h =
      let (ks, got, saved) =
        finish_claim_lem lib (claim_key now key u.keys) u t c
          (sym (consume_from lib now key s u e) ∙ h) in
      let put : install_keys lib (some j) t ≡ (ok tt, record t { keys = u.keys }) =
        install_anywhere j s t u (reload_text j s stale ∙ e) in
      let twin = saved_members lib (record u { keys = ks }) t saved in
      let same : (save lib (record t { keys = ks })).0 ≡ ok tt =
        ap (λ (x : Store). (save lib (record x { keys = ks })).0) twin
        ∙ save_again (record u { keys = ks }) t.file t.hook_calls
        ∙ ap (λ (p : Outcome (Unit {0}) × Store). p.0) saved in
      rw (put, got) (granted_with c (save lib (record t { keys = ks })) same)

find_key-missing :
    (key : Str) (ks : List PreauthKey)
    → find_key key ks ≡ none
    → find_key key (map cut_expiry ks) ≡ none
unfolding find_key
find_key-missing key [] h = refl
find_key-missing key (k ∷ ks) h = ground (arith, find_key-missing key ks)

module _ (lib : JsonLib) where
  -- A key that is not in memory, as one that another process put into the file, is refused after any
  -- save of the store, whatever the file held before.
  pub foreign_key_lost :
      (now : ℤ) (key : Str) (s t : Store)
      → is_empty s.path ≡ false
      → find_key key s.keys ≡ none
      → save lib s ≡ (ok tt, t)
      → (consume_preauth lib now key t).0 ≡ ok none
  unfolding finish_claim
  foreign_key_lost now key s t named missing saved =
      let path_same : t.path ≡ s.path = ap (λ (x : Store). x.path) (saved_members lib s t saved) in
      let loaded = reload-save lib s t t named saved path_same refl in
      rw (
        consume_from lib now key t (record t { keys = map cut_expiry s.keys }) loaded,
        claim_key-granted now key (map cut_expiry s.keys),
        find_key-missing key s.keys missing,
      )
