-- ===== src/Store/Runs/Moving.antt =====
-- Each call of the store as a step of the abstract map (src/state.cpp).
use wirebone_cpp.Prelude.{
  ℕ, ◌⊎◌, ◌≡◌, refl, ap, ◌∙◌, inl, inr, Bool, Option, none, some, List, [], ◌∷◌, ◌++◌, Str, Outcome,
  ok, throws, str_eq, Bool-cases, Option-cases,
}
use wirebone_cpp.Json.{JsonLib}
use wirebone_cpp.IpAlloc.{Inet, address_for}
use wirebone_cpp.Store.Types.{Store, NodeState, next}
use wirebone_cpp.Store.Persist.{load_json, save, persist, set_persist_hook}
use wirebone_cpp.Store.Persist.Save.{save_members}
use wirebone_cpp.Store.Keys.{claim_key}
use wirebone_cpp.Store.Keys.Registry.{
  registry, registry-finish_claim, registry-create_preauth_key, registry-install_keys,
}
use wirebone_cpp.Store.Nodes.{
  change_first, keep_node, reregistered, new_node, map_info, find_by_machine, add_node,
  register_node, update_map_info, set_online,
}
use wirebone_cpp.Store.Runs.{Step}
use wirebone_cpp.Store.Runs.Imports.{Exported, load_json-Export}
use wirebone_cpp.Store.Runs.View.{
  view, identity, Moves, stays, alters, joins, changed, find_by_machine-changed,
  find_by_machine-behind,
}

-- The nodes of a store whose first node of that key was changed.
view-changed :
    (key : Str) (f : NodeState → NodeState) (s t : Store)
    → ((n : NodeState) → identity (f n) ≡ identity n)
    → t.nodes ≡ changed s.nodes (change_first key f s.nodes)
    → Moves (view s) (view t)
view-changed key f s t same e = alters key f same (λ i k.
    (ap (find_by_machine k) e
        ∙ find_by_machine-changed key f
            (λ n. ap (λ (q : ℕ × Str × Str × Str × Str × Str × Bool). q.2) (same n)) s.nodes k)
      i)

same_nodes : (s t : Store) → t.nodes ≡ s.nodes → Moves (view s) (view t)
same_nodes s t e = stays (λ i k. find_by_machine k (e i))

module _ (lib : JsonLib) (inet : Inet) where
  save_nodes : (s : Store) → (save lib s).1.nodes ≡ s.nodes
  save_nodes s = ap (λ (x : Store). x.nodes) (save_members lib s)

  set_online-Moves : (key : Str) (b : Bool) (s : Store) → Moves (view s) (view (set_online key b s))
  unfolding set_online
  set_online-Moves key b s =
      let f : NodeState → NodeState = λ n. record n { online = b } in
      view-changed key f s (set_online key b s) (λ n. refl)
        (elim (Option-cases (change_first key f s.nodes)) [
          | inl e ↦ rw (e, set_online)
          | inr ((m, ms), e) ↦ rw (e, set_online)
        ])

  update_map_info-Moves :
      (key node_key disco host : Str) (ends : List Str) (s : Store)
      → Moves (view s) (view (update_map_info lib inet key node_key disco host ends s).1)
  unfolding update_map_info
  update_map_info-Moves key node_key disco host ends s =
      let f : NodeState → NodeState = map_info node_key disco host ends in
      view-changed key f s (update_map_info lib inet key node_key disco host ends s).1 (λ n. refl)
        (elim (Option-cases (change_first key f s.nodes)) [
          | inl e ↦ rw (e, update_map_info)
          | inr ((m, ms), e) ↦ rw (e, update_map_info) (save_nodes (record s { nodes = ms }))
        ])

  answered_nodes :
      (n : NodeState) (p : Outcome (Unit {0}) × Store)
      → (next p (λ _ t. (ok n, t))).1.nodes ≡ p.1.nodes
  answered_nodes n (ok u, t) = refl
  answered_nodes n (throws f, t) = refl

  added_nodes :
      (key node_key host token : Str) (ephemeral shared : Bool) (s : Store) (v : Str × Str)
      → address_for inet s.alloc s.next_ip_index ≡ ok v
      → (add_node lib inet key node_key host ephemeral token shared s).1.nodes
        ≡ s.nodes ++ new_node s.next_node_id key node_key host ephemeral token shared v ∷ []
  unfolding add_node
  added_nodes key node_key host token ephemeral shared s v e =
      rw e (answered_nodes _ (save lib _) ∙ save_nodes _)

  -- A machine that is not known: it joins where it has addresses, also if the save throws.
  add_node-Moves :
      (key node_key host token : Str) (ephemeral shared : Bool) (s : Store)
      (r : Outcome (Str × Str))
      → address_for inet s.alloc s.next_ip_index ≡ r
      → find_by_machine key s.nodes ≡ none
      → Moves (view s) (view (add_node lib inet key node_key host ephemeral token shared s).1)
  unfolding add_node
  add_node-Moves key node_key host token ephemeral shared s (throws f) e free =
      same_nodes s (add_node lib inet key node_key host ephemeral token shared s).1
        (rw (e, add_node))
  add_node-Moves key node_key host token ephemeral shared s (ok v) e free =
      let n = new_node s.next_node_id key node_key host ephemeral token shared v in
      let nodes = added_nodes key node_key host token ephemeral shared s v e in
      joins key n refl free
        (λ i k. (ap (find_by_machine k) nodes ∙ find_by_machine-behind key n refl s.nodes free k) i)

  kept_none :
      (x : NodeState) (o : Option (NodeState × List NodeState)) → keep_node x o ≡ none → o ≡ none
  kept_none x none e = refl
  kept_none x (some (m, ms)) e = cc

  missed :
      (key : Str) (f : NodeState → NodeState) (ns : List NodeState)
      → change_first key f ns ≡ none
      → find_by_machine key ns ≡ none
  unfolding change_first find_by_machine
  missed key f [] e = refl
  missed key f (x ∷ xs) e = elim (Bool-cases (str_eq x.machine_key key)) [
    | inl hit ↦ cc (rw hit at e)
    | inr miss ↦ rw miss (missed key f xs (kept_none x (change_first key f xs) (rw miss at e)))
  ]

  register_node-Moves :
      (key node_key host token : Str) (ephemeral shared : Bool) (s : Store)
      → Moves (view s) (view (register_node lib inet key node_key host ephemeral token shared s).1)
  unfolding register_node
  register_node-Moves key node_key host token ephemeral shared s =
      let f : NodeState → NodeState = reregistered node_key host ephemeral in
      elim (Option-cases (change_first key f s.nodes)) [
        | inl e ↦
            rw (e, register_node)
              (add_node-Moves key node_key host token ephemeral shared s _ refl
                (missed key f s.nodes e))
        | inr ((m, ms), e) ↦
            view-changed key f s
              (register_node lib inet key node_key host ephemeral token shared s).1 (λ n. refl)
              (rw (e, register_node)
                (answered_nodes m (save lib (record s { nodes = ms }))
                  ∙ save_nodes (record s { nodes = ms })))
      ]

  registry_nodes : (s t u : Store) → t ≡ u → registry u ≡ registry s → Moves (view s) (view t)
  registry_nodes s t u e h = same_nodes s t (ap (λ (x : Store). x.nodes) e ∙ ap (λ q. q.3) h)

  module _ (seen : Store → lib.Json → Type 0) (drawn : List ℕ → Type 0)
      (P : Store → Store → Type 0) where
    -- An import: the map is the one of the exported store.
    pub record Imports (s t : Store) : Type 0 where
      pub text : Str
      pub export : Exported lib P s text
      pub loaded : t ≡ (load_json lib text s).1
      pub same_view : view t ≡ view export.origin

    pub Step-Moves :
        (s t : Store)
        → Step lib inet seen drawn (Exported lib P) s t
        → Moves (view s) (view t) ⊎ Imports s t
    unfolding persist set_persist_hook
    Step-Moves s t (Step.registers machine node_key host ephemeral token shared e) =
        inl (rw e (register_node-Moves machine node_key host token ephemeral shared s))
    Step-Moves s t (Step.updates machine node_key disco_key host endpoints e) =
        inl (rw e (update_map_info-Moves machine node_key disco_key host endpoints s))
    Step-Moves s t (Step.turns machine online e) = inl (rw e (set_online-Moves machine online s))
    Step-Moves s t (Step.creates raw now reusable ephemeral expiration token shared other e) = inl (
        registry_nodes s t _ e
          (registry-create_preauth_key lib raw now reusable ephemeral expiration token shared s))
    Step-Moves s t (Step.reloads ks saw e) =
        inl (registry_nodes s t _ e (registry-install_keys lib (some ks) s))
    Step-Moves s t (Step.claims now key e) =
        inl (registry_nodes s t _ e (registry-finish_claim lib (claim_key now key s.keys) s))
    Step-Moves s t (Step.persists e) =
        inl (registry_nodes s t _ e (ap registry (save_members lib s)))
    Step-Moves s t (Step.imports text given e) = inr (record {
      text = text;
      export = given;
      loaded = e;
      same_view = ap view (e ∙ load_json-Export lib (P s) s text given);
    })
    Step-Moves s t (Step.hooks given e) = inl (registry_nodes s t _ e refl)
    Step-Moves s t (Step.disk can_open can_rename e) = inl (registry_nodes s t _ e refl)
