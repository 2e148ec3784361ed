-- ===== src/Store/Keys/Registry.antt =====
-- Preauth keys have no part in the registry of nodes (src/state.cpp).
use wirebone_cpp.Prelude.{
  ℕ, ℤ, ◌≡◌, refl, ap, ◌∙◌, Bool, Option, none, some, List, Str, Outcome, ok, throws,
}
use wirebone_cpp.Json.{JsonLib}
use wirebone_cpp.IpAlloc.{IpAllocator}
use wirebone_cpp.Store.Types.{Store, NodeState, PreauthKey, PreauthClaim, next}
use wirebone_cpp.Store.Persist.{
  reload_keys_from_disk, keys_on_disk, install_keys, restore_keys, save,
}
use wirebone_cpp.Store.Persist.Save.{save_members}
use wirebone_cpp.Store.Keys.{
  random_token, create_preauth_key, consume_preauth, finish_claim, claim_key,
}

-- What preauth keys have no part in.
abbrev pub registry : Store → IpAllocator × ℕ × ℕ × List NodeState
registry s = (s.alloc, s.next_node_id, s.next_ip_index, s.nodes)

module _ (lib : JsonLib) where
  pub registry-install_keys :
      (o : Option lib.Json) (s : Store) → registry (install_keys lib o s).1 ≡ registry s
  unfolding install_keys restore_keys
  registry-install_keys none s = refl
  registry-install_keys (some ks) s = refl

  registry-reload : (s : Store) → registry (reload_keys_from_disk lib s).1 ≡ registry s
  unfolding reload_keys_from_disk
  registry-reload s = registry-install_keys (keys_on_disk lib s.path s.file) s

  after_save :
      (s : Store) (c : PreauthClaim) (p : Outcome (Unit {0}) × Store)
      → registry p.1 ≡ registry s
      → registry (next p (λ _ t. (ok (some c), t))).1 ≡ registry s
  after_save s c (ok u, t) h = h
  after_save s c (throws f, t) h = h

  pub registry-finish_claim :
      (o : Option (PreauthClaim × List PreauthKey)) (s : Store)
      → registry (finish_claim lib o s).1 ≡ registry s
  unfolding finish_claim
  registry-finish_claim none s = refl
  registry-finish_claim (some (c, ks)) s =
      after_save s c (save lib (record s { keys = ks }))
        (ap registry (save_members lib (record s { keys = ks })))

  after_reload :
      (now : ℤ) (key : Str) (s : Store) (p : Outcome (Unit {0}) × Store)
      → registry p.1 ≡ registry s
      → registry (next p (λ _ t. finish_claim lib (claim_key now key t.keys) t)).1 ≡ registry s
  after_reload now key s (ok u, t) h = registry-finish_claim (claim_key now key t.keys) t ∙ h
  after_reload now key s (throws f, t) h = h

  -- Consuming a key leaves the registry alone.
  pub registry-consume_preauth :
      (now : ℤ) (key : Str) (s : Store) → registry (consume_preauth lib now key s).1 ≡ registry s
  unfolding consume_preauth
  registry-consume_preauth now key s =
      after_reload now key s (reload_keys_from_disk lib s) (registry-reload s)

  -- What is answered once the key is saved.
  answered :
      (s : Store) (key : Str) (p : Outcome (Unit {0}) × Store)
      → registry p.1 ≡ registry s
      → registry (next p (λ _ t. (ok key, t))).1 ≡ registry s
  answered s key (ok u, t) h = h
  answered s key (throws f, t) h = h

  -- Creating a key leaves the registry alone.
  pub registry-create_preauth_key :
      (raw : Option (List ℕ)) (now : ℤ) (reusable ephemeral : Bool) (expiration : ℤ) (token : Str)
      (shared : Option Bool) (s : Store)
      → registry (create_preauth_key lib raw now reusable ephemeral expiration token shared s).1
        ≡ registry s
  unfolding create_preauth_key
  registry-create_preauth_key none now reusable ephemeral expiration token shared s = refl
  registry-create_preauth_key (some raw) now reusable ephemeral expiration token shared s =
      answered s (random_token raw) (save lib _) (ap registry (save_members lib _))
