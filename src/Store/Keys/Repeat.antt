-- ===== src/Store/Keys/Repeat.antt =====
-- A key that is consumed again, after its first use was saved (src/state.cpp).
use wirebone_cpp.Prelude.{
  ℕ, ◌≡◌, ◌<◌, ◌≤◌, ◌^◌, refl, ok, throws, arith, true, false, Option, none, some, List, Str, map,
  sym, ap, ◌∙◌, is_empty, ℤ, pos, Outcome, Bool-cases, inl, inr, ◌⊎◌,
}
use wirebone_cpp.Json.{JsonLib}
use wirebone_cpp.Store.Types.{PreauthKey, PreauthClaim, Store, next}
use wirebone_cpp.Store.Persist.{save, reload_keys_from_disk, keys_on_disk, install_keys}
use wirebone_cpp.Store.Persist.Restore.{cut_expiry}
use wirebone_cpp.Store.Persist.Save.{saved_members}
use wirebone_cpp.Store.Persist.Reload.{reload-save}
use wirebone_cpp.Store.Keys.{claim_key, claim_of, expired, consume_preauth, finish_claim}
use wirebone_cpp.Store.Keys.Consume.{
  find_key, mark_used, granted, claim_key-granted, find_key-mark_used, find_key-cut_expiry,
}

granted-some :
    (now : ℤ) (key : Str) (ks after : List PreauthKey) (k : PreauthKey) (c : PreauthClaim)
    → granted now key ks (some k) ≡ some (c, after)
    → (c ≡ claim_of k) × (after ≡ mark_used key ks)
granted-some now key ks after k c e = ground arith

abbrev pub Found : Str → PreauthKey → List PreauthKey → Type 0
Found key k ks = (find_key key ks ≡ some k) ⊎ (find_key key ks ≡ some (cut_expiry k))

Found-again :
    (key : Str) (ks found marked : List PreauthKey) (k : PreauthKey)
    → marked ≡ mark_used key ks
    → find_key key (mark_used key ks) ≡ some (record k { used = true })
    → (found ≡ marked) ⊎ (found ≡ map cut_expiry marked)
    → Found key (record k { used = true }) found
Found-again key ks found marked k m h (inl e) = inl (rw (e, m) h)
Found-again key ks found marked k m h (inr e) =
    inr (rw (e, m) (find_key-cut_expiry key (mark_used key ks) (record k { used = true }) h))

refused_once :
    (later : ℤ) (key : Str) (ks : List PreauthKey) (k : PreauthKey)
    → k.reusable ≡ false
    → k.used ≡ true
    → Found key k ks
    → claim_key later key ks ≡ none
refused_once later key ks k once used (inl f) = claim_key-granted later key ks ∙ rw f (ground arith)
refused_once later key ks k once used (inr f) = claim_key-granted later key ks ∙ rw f (ground arith)

module _ (lib : JsonLib) where
  pub consume_from :
      (now : ℤ) (key : Str) (s u : Store)
      → reload_keys_from_disk lib s ≡ (ok tt, u)
      → consume_preauth lib now key s ≡ finish_claim lib (claim_key now key u.keys) u
  unfolding consume_preauth
  consume_from now key s u e = rw e

  saved_claim :
      (claim : PreauthClaim) (p : Outcome (Unit {0}) × Store) (c : PreauthClaim) (t : Store)
      → next p (λ _ v. (ok (some claim), v)) ≡ (ok (some c), t)
      → (claim ≡ c) × (p ≡ (ok tt, t))
  saved_claim claim (throws f, v) c t e = cc
  saved_claim claim (ok u, v) c t e = ground arith

  pub finish_claim_lem :
      (o : Option (PreauthClaim × List PreauthKey)) (u t : Store) (c : PreauthClaim)
      → finish_claim lib o u ≡ (ok (some c), t)
      → (ks : List PreauthKey) × (o ≡ some (c, ks))
        × (save lib (record u { keys = ks }) ≡ (ok tt, t))
  unfolding finish_claim
  finish_claim_lem none u t c e = cc
  finish_claim_lem (some (claim, ks)) u t c e =
      let (same, saved) = saved_claim claim (save lib (record u { keys = ks })) c t e in
      (ks, rw same, saved)

  -- The keys that a later call finds are those that were saved, or the same cut to `int`s.
  abbrev Reloaded : List PreauthKey → Store → Type 0
  Reloaded ks t =
      (v : Store) × (reload_keys_from_disk lib t ≡ (ok tt, v))
      × ((v.keys ≡ ks) ⊎ (v.keys ≡ map cut_expiry ks))

  reload_memory : (t : Store) → is_empty t.path ≡ true → reload_keys_from_disk lib t ≡ (ok tt, t)
  unfolding reload_keys_from_disk keys_on_disk install_keys
  reload_memory t h = rw h

  reload_saved : (s t : Store) → save lib s ≡ (ok tt, t) → Reloaded s.keys t
  reload_saved s t e =
      let same = saved_members lib s t e in
      let path_same : t.path ≡ s.path = ap (λ (x : Store). x.path) same in
      let keys_same : t.keys ≡ s.keys = ap (λ (x : Store). x.keys) same in
      elim (Bool-cases (is_empty s.path)) [
        | inl memory ↦ (t, reload_memory t (rw path_same memory), inl keys_same)
        | inr named ↦ (
          record t { keys = map cut_expiry s.keys },
          reload-save lib s t t named e path_same refl,
          inr refl,
        )
      ]

  -- What the first use of a key leaves for the next.
  pub find_later :
      (now : ℤ) (key : Str) (s u t : Store) (k : PreauthKey) (c : PreauthClaim)
      → reload_keys_from_disk lib s ≡ (ok tt, u)
      → find_key key u.keys ≡ some k
      → consume_preauth lib now key s ≡ (ok (some c), t)
      → (v : Store) × (reload_keys_from_disk lib t ≡ (ok tt, v))
        × Found key (record k { used = true }) v.keys
  find_later now key s u t k c e f h =
      let (ks, got, saved) =
        finish_claim_lem (claim_key now key u.keys) u t c (sym (consume_from now key s u e) ∙ h) in
      let (v, loaded, keys) = reload_saved (record u { keys = ks }) t saved in
      let mark : ks ≡ mark_used key u.keys =
        (granted-some now key u.keys ks k c
          (ap (granted now key u.keys) (sym f) ∙ sym (claim_key-granted now key u.keys) ∙ got)).1 in
      let marked = find_key-mark_used key u.keys k f in
      (v, loaded, Found-again key u.keys v.keys ks k mark marked keys)

  -- Where the key that the file gives is not reusable and a call granted it, any later call for it on
  -- the store that is left is refused, at any time.
  pub consume_preauth_once :
      (now later : ℤ) (key : Str) (s u t : Store) (k : PreauthKey) (c : PreauthClaim)
      → reload_keys_from_disk lib s ≡ (ok tt, u)
      → find_key key u.keys ≡ some k
      → k.reusable ≡ false
      → consume_preauth lib now key s ≡ (ok (some c), t)
      → (consume_preauth lib later key t).0 ≡ ok none
  unfolding finish_claim
  consume_preauth_once now later key s u t k c e f once h =
      let (v, loaded, found) = find_later now key s u t k c e f h in
      rw (
        consume_from later key t v loaded,
        refused_once later key v.keys (record k { used = true }) once refl found,
        finish_claim,
      )

  late :
      (n e : ℕ) (k : PreauthKey)
      → k.expires_unix ≡ pos e
      → 2 ^ 31 ≤ e
      → e < 2 ^ 32
      → expired (pos n) (cut_expiry k) ≡ true
  late n e k h lo hi = rw h (ground arith)

  -- A key that expires in the seconds from 2 ^ 31 (January 2038) up to 2 ^ 32 and was saved to a
  -- file is refused at every time that is not before 1970, since the file gives back a negative
  -- time of expiry.
  pub consume_preauth_late_expiry :
      (s t : Store) (key : Str) (k : PreauthKey) (e n : ℕ)
      → is_empty s.path ≡ false
      → save lib s ≡ (ok tt, t)
      → find_key key s.keys ≡ some k
      → k.expires_unix ≡ pos e
      → 2 ^ 31 ≤ e
      → e < 2 ^ 32
      → (consume_preauth lib (pos n) key t).0 ≡ ok none
  unfolding finish_claim
  consume_preauth_late_expiry s t key k e n named saved f h lo hi =
      let path_same : t.path ≡ s.path = ap (λ (x : Store). x.path) (saved_members lib s t saved) in
      let loaded = reload-save lib s t t named saved path_same refl in
      let over = late n e k h lo hi in
      rw (
        consume_from (pos n) key t (record t { keys = map cut_expiry s.keys }) loaded,
        claim_key-granted (pos n) key (map cut_expiry s.keys),
        find_key-cut_expiry key s.keys k f,
        over,
      )
