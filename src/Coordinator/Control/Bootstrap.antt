-- ===== src/Coordinator/Control/Bootstrap.antt =====
-- The key with which a new coordinator can be joined (src/coordinator.cpp, src/state.cpp).
use wirebone_cpp.Prelude.{
  ℕ, ℤ, pos, ◌≡◌, ap, sym, ◌∙◌, true, false, Option, none, some, List, [], ◌∷◌, Outcome, ok, throws,
  str_eq_refl, ok-injective,
}
use wirebone_cpp.Json.{JsonLib}
use wirebone_cpp.Store.Types.{Store, PreauthKey, PreauthClaim, next}
use wirebone_cpp.Store.Persist.{save}
use wirebone_cpp.Store.Persist.Save.{save_members}
use wirebone_cpp.Store.Keys.{create_preauth_key, claim_key, preauth_keys, random_token}
use wirebone_cpp.Coordinator.Control.{Impl, bootstrap, call, with_key}

-- What the key grants: to stay, outside of every group, and seen by all.
abbrev pub open_claim : PreauthClaim
open_claim = record { ephemeral = false; token = []; shared = true }

module _ (lib : JsonLib) where
  -- The key that the constructor asks for.
  abbrev first_key_of : List ℕ → PreauthKey
  first_key_of bytes = record {
    key = random_token bytes;
    reusable = true;
    ephemeral = false;
    used = false;
    expires_unix = pos 0;
    token = [];
    shared = true;
  }

  -- What the constructor makes of the result of a save.
  abbrev finished : List ℕ → Outcome (Unit {0}) × Store → Impl → Outcome Impl
  finished bytes p c = call (λ s. next p (λ _ t. (ok (random_token bytes), t))) c (with_key lib)

  keyed :
      (bytes : List ℕ) (p : Outcome (Unit {0}) × Store) (c d : Impl)
      → p.1.keys ≡ first_key_of bytes ∷ []
      → finished bytes p c ≡ ok d
      → (d.store.keys ≡ first_key_of bytes ∷ []) × (d.bootstrap_key ≡ random_token bytes)
  keyed bytes (throws f, t) c d h e = cc
  keyed bytes (ok u, t) c d h e = (
    ap (λ (x : Impl). x.store.keys) (sym (ok-injective e)) ∙ h,
    ap (λ (x : Impl). x.bootstrap_key) (sym (ok-injective e)),
  )

  made :
      (raw : Option (List ℕ)) (now : ℤ) (c d : Impl)
      → c.store.keys ≡ []
      → bootstrap lib raw now c ≡ ok d
      → (bytes : List ℕ) × (d.store.keys ≡ first_key_of bytes ∷ [])
        × (d.bootstrap_key ≡ random_token bytes)
  unfolding bootstrap preauth_keys create_preauth_key
  made none now c d none_yet e = cc (rw (none_yet, bootstrap) at e)
  made (some bytes) now c d none_yet e =
      let w : Store = record c.store { keys = first_key_of bytes ∷ [] } in
      let saved : (save lib w).1.keys ≡ first_key_of bytes ∷ [] =
        ap (λ (x : Store). x.keys) (save_members lib w) in
      let (keys, name) = keyed bytes (save lib w) c d saved (rw (none_yet, bootstrap) at e) in
      (bytes, keys, name)

  -- A coordinator that is constructed without keys gets a bootstrap key, the only one of its store, which the
  -- loop over the keys in consume_preauth grants at any time, and again after it was used.
  pub bootstrap-granted :
      (raw : Option (List ℕ)) (now later again : ℤ) (c d : Impl)
      → c.store.keys ≡ []
      → bootstrap lib raw now c ≡ ok d
      → (k : PreauthKey) × (d.store.keys ≡ k ∷ [])
        × (k.key ≡ d.bootstrap_key)
        × (used : List PreauthKey) × (claim_key later d.bootstrap_key d.store.keys
            ≡ some (open_claim, used))
        × (claim_key again d.bootstrap_key used ≡ some (open_claim, used))
  unfolding bootstrap preauth_keys create_preauth_key claim_key
  bootstrap-granted raw now later again c d none_yet e =
      let (bytes, keys, name) = made raw now c d none_yet e in
      let same = str_eq_refl (random_token bytes) in
      (
        first_key_of bytes,
        keys,
        sym name,
        record (first_key_of bytes) { used = true } ∷ [],
        simp (keys, name, same),
        simp (name, same),
      )
