-- ===== src/Store/Runs/Once.antt =====
-- A one-shot key that was consumed is never granted again (src/state.cpp).
use wirebone_cpp.Prelude.{
  true, ℕ, suc, ◌≡◌, ◌≢◌, refl, Bool, false, some, List, Str, ℤ, Outcome, ok, throws, str_eq, inl,
  inr, Option-cases,
}
use wirebone_cpp.Json.{JsonLib}
use wirebone_cpp.IpAlloc.{Inet, address_for}
use wirebone_cpp.Store.Types.{Store, NodeState, PreauthKey, PreauthClaim, next}
use wirebone_cpp.Store.Persist.{
  load_json, save, persist, set_persist_hook, keys_on_disk, install_keys, reload_keys_from_disk,
}
use wirebone_cpp.Store.Keys.{random_token, consume_preauth, finish_claim, claim_key}
use wirebone_cpp.Store.Keys.Consume.{find_key}
use wirebone_cpp.Store.Nodes.{
  register_node, add_node, change_first, reregistered, update_map_info, map_info, set_online,
}
use wirebone_cpp.Store.Runs.{Step, Reach}
use wirebone_cpp.Store.Keys.Spent.{is_spent, is_spent-refused}
use wirebone_cpp.Store.Runs.Imports.{Exported, load_json-Export}
use wirebone_cpp.Store.Runs.Spent.{
  Spent, save-Spent, answered-Spent, finish_claim-Spent, create_preauth_key-Spent,
  install_keys-Spent, granted-Spent,
}

module _ (lib : JsonLib) (inet : Inet) where
  -- A change of the nodes alone.
  nodes-Spent :
      (key : Str) (s : Store) (ns : List NodeState)
      → Spent lib key s
      → Spent lib key (record s { nodes = ns })
  nodes-Spent key s ns h = record { memory = h.memory; disk = h.disk }

  add_node-Spent :
      (key machine node_key host token : Str) (ephemeral shared : Bool) (s : Store)
      (r : Outcome (Str × Str))
      → address_for inet s.alloc s.next_ip_index ≡ r
      → Spent lib key s
      → Spent lib key (add_node lib inet machine node_key host ephemeral token shared s).1
  unfolding add_node
  add_node-Spent key machine node_key host token ephemeral shared s (throws f) e h =
      rw e (record { memory = h.memory; disk = h.disk })
  add_node-Spent key machine node_key host token ephemeral shared s (ok v) e h = rw e (
      answered-Spent lib key _ (save lib _)
        (save-Spent lib key _ (record { memory = h.memory; disk = h.disk })))

  register_node-Spent :
      (key machine node_key host token : Str) (ephemeral shared : Bool) (s : Store)
      → Spent lib key s
      → Spent lib key (register_node lib inet machine node_key host ephemeral token shared s).1
  unfolding register_node
  register_node-Spent key machine node_key host token ephemeral shared s h =
      elim (Option-cases (change_first machine (reregistered node_key host ephemeral) s.nodes)) [
        | inl e ↦
            rw (e, register_node)
              (add_node-Spent key machine node_key host token ephemeral shared s _ refl h)
        | inr ((m, ms), e) ↦
            rw (e, register_node)
              (answered-Spent lib key m (save lib (record s { nodes = ms }))
                (save-Spent lib key _ (nodes-Spent key s ms h)))
      ]

  update_map_info-Spent :
      (key machine node_key disco host : Str) (ends : List Str) (s : Store)
      → Spent lib key s
      → Spent lib key (update_map_info lib inet machine node_key disco host ends s).1
  unfolding update_map_info
  update_map_info-Spent key machine node_key disco host ends s h =
      elim (Option-cases (change_first machine (map_info node_key disco host ends) s.nodes)) [
        | inl e ↦ rw (e, update_map_info) h
        | inr ((m, ms), e) ↦ rw (e, update_map_info) (save-Spent lib key _ (nodes-Spent key s ms h))
      ]

  set_online-Spent :
      (key machine : Str) (online : Bool) (s : Store)
      → Spent lib key s
      → Spent lib key (set_online machine online s)
  unfolding set_online
  set_online-Spent key machine online s h =
      elim (Option-cases (change_first machine (λ n. record n { online = online }) s.nodes)) [
        | inl e ↦ rw (e, set_online) h
        | inr ((m, ms), e) ↦ rw (e, set_online) (nodes-Spent key s ms h)
      ]

module _ (lib : JsonLib) (inet : Inet) (key : Str) where
  -- A call that reloads reads what is on disk when it takes the lock.
  abbrev pub Current : Store → lib.Json → Type 0
  Current s j = keys_on_disk lib s.path s.file ≡ some j

  -- The bytes give another key.
  abbrev pub Other : List ℕ → Type 0
  Other raw = str_eq (random_token raw) key ≡ false

  -- The exported store has the key as used, or not at all.
  abbrev pub Unrevived : Store → Store → Type 0
  Unrevived s u = is_spent key u.keys ≡ true

  imported-Spent :
      (s t : Store) (text : Str)
      → Exported lib Unrevived s text
      → t ≡ (load_json lib text s).1
      → Spent lib key s
      → Spent lib key t
  imported-Spent s t text x e h =
      rw (e, load_json-Export lib (Unrevived s) s text x)
        (record { memory = x.holds; disk = h.disk })

  Step-Spent :
      (s t : Store)
      → Step lib inet Current Other (Exported lib Unrevived) s t
      → Spent lib key s
      → Spent lib key t
  unfolding persist set_persist_hook
  Step-Spent s t (Step.registers machine node_key host ephemeral token shared e) h =
      rw e (register_node-Spent lib inet key machine node_key host token ephemeral shared s h)
  Step-Spent s t (Step.updates machine node_key disco_key host endpoints e) h =
      rw e (update_map_info-Spent lib inet key machine node_key disco_key host endpoints s h)
  Step-Spent s t (Step.turns machine online e) h =
      rw e (set_online-Spent lib inet key machine online s h)
  Step-Spent s t (Step.creates raw now reusable ephemeral expiration token shared drawn e) h =
      rw e (
        create_preauth_key-Spent lib key raw now reusable ephemeral expiration token shared s drawn
          h)
  Step-Spent s t (Step.reloads j saw e) h = rw e (install_keys-Spent lib key j s saw h)
  Step-Spent s t (Step.claims now other e) h =
      rw e (finish_claim-Spent lib now other key s _ refl h)
  Step-Spent s t (Step.persists e) h = rw e (save-Spent lib key s h)
  Step-Spent s t (Step.imports text given e) h = imported-Spent s t text given e h
  Step-Spent s t (Step.hooks given e) h = rw e (record { memory = h.memory; disk = h.disk })
  Step-Spent s t (Step.disk can_open can_rename e) h =
      rw e (record { memory = h.memory; disk = h.disk })

  Reach-Spent :
      (s : Store) (n : ℕ) (t : Store)
      → Reach lib inet Current Other (Exported lib Unrevived) s n t
      → Spent lib key s
      → Spent lib key t
  Reach-Spent s n t Reach.here h = h
  Reach-Spent s (suc m) t (Reach.after {t = u} r step) h =
      Step-Spent u t step (Reach-Spent s m u r h)

  reloaded-Spent : (s : Store) → Spent lib key s → Spent lib key (reload_keys_from_disk lib s).1
  unfolding reload_keys_from_disk install_keys
  reloaded-Spent s h = elim (Option-cases (keys_on_disk lib s.path s.file)) [
    | inl e ↦ rw (e, reload_keys_from_disk) h
    | inr (j, e) ↦ rw (e, reload_keys_from_disk) (install_keys-Spent lib key j s e h)
  ]

  Spent-refused :
      (later : ℤ) (p : Outcome (Unit {0}) × Store) (d : PreauthClaim)
      → Spent lib key p.1
      → (next p (λ _ t. finish_claim lib (claim_key later key t.keys) t)).0 ≢ ok (some d)
  unfolding finish_claim
  Spent-refused later (throws f, t) d h = λ e. cc
  Spent-refused later (ok u, t) d h = λ e. cc (rw (is_spent-refused later key t.keys h.memory) at e)

  -- Once a one-shot key was granted, no later call for it is granted, at any time and after any
  -- sequence of calls of the store, also where they throw, as long as each call that reloads the
  -- keys reads what is on disk then, no new key has the same text, and each text that is imported is
  -- the export of a store that has the key as used, or not at all, with numbers that fit an int.
  pub granted_once :
      (now later : ℤ) (n : ℕ) (s u t v : Store) (k : PreauthKey) (c d : PreauthClaim)
      → reload_keys_from_disk lib s ≡ (ok tt, u)
      → find_key key u.keys ≡ some k
      → k.reusable ≡ false
      → consume_preauth lib now key s ≡ (ok (some c), t)
      → Reach lib inet Current Other (Exported lib Unrevived) t n v
      → (consume_preauth lib later key v).0 ≢ ok (some d)
  unfolding consume_preauth
  granted_once now later n s u t v k c d e f once h r =
      let spent = Reach-Spent t n v r (granted-Spent lib now key s t u k c e f once h) in
      Spent-refused later (reload_keys_from_disk lib v) d (reloaded-Spent v spent)
