-- ===== src/Store/Nodes/Preserve.antt =====
-- Every operation on nodes keeps the registry consistent (src/state.cpp).
use wirebone_cpp.Prelude.{
  ◌+◌, ◌^◌, ◌<◌, ◌≡◌, ◌≢◌, refl, Bool, Option, none, some, List, [], ◌∷◌, Str, All, arith, str_eq,
  str_eq_iff, Outcome, ok, throws, inl, inr, Option-cases, Bool-cases,
}
use wirebone_cpp.Json.{JsonLib}
use wirebone_cpp.IpAlloc.{Inet, address_for}
use wirebone_cpp.Store.Types.{NodeState, Store, next}
use wirebone_cpp.Store.Persist.{save}
use wirebone_cpp.Store.Persist.Save.{save_members}
use wirebone_cpp.Store.Nodes.{
  change_first, keep_node, reregistered, map_info, new_node, add_node, register_node,
  update_map_info, set_online,
}
use wirebone_cpp.Store.Nodes.Consistent.{
  IsConsistent, SameIdentity, Updated-self, change_first-Updated, IsConsistent-members,
}
use wirebone_cpp.Store.Nodes.Added.{added-IsConsistent, refused-IsConsistent}

next_state :
    {A B : Type 0} (b : Outcome B) (p : Outcome A × Store) → (next p (λ _ s. (b, s))).1 ≡ p.1
next_state b (ok a, s) = refl
next_state b (throws e, s) = refl

keep_node-none :
    (n : NodeState) (o : Option (NodeState × List NodeState)) → keep_node n o ≡ none → o ≡ none
keep_node-none n none e = refl
keep_node-none n (some (m, ms)) e = cc

-- The loop found no node of that machine key.
change_first-none :
    (key : Str) (f : NodeState → NodeState) (ns : List NodeState)
    → change_first key f ns ≡ none
    → All (λ n. n.machine_key ≢ key) ns
unfolding change_first
change_first-none key f [] e = tt
change_first-none key f (n ∷ ns) e = elim (Bool-cases (str_eq n.machine_key key)) [
  | inl hit ↦ cc (rw hit at e)
  | inr miss ↦ (
    λ same. ground (arith, str_eq_iff n.machine_key key),
    change_first-none key f ns (keep_node-none n _ (rw miss at e)),
  )
]

module _ (lib : JsonLib) (inet : Inet) where
  save-IsConsistent : (s : Store) → IsConsistent inet s → IsConsistent inet (save lib s).1
  save-IsConsistent s h =
      rw (save_members lib s)
        (IsConsistent-members inet s _ refl refl refl (Updated-self s.nodes) h)

  update-IsConsistent :
      (key : Str) (f : NodeState → NodeState) (s : Store) (m : NodeState) (ms : List NodeState)
      → ((n : NodeState) → SameIdentity n (f n))
      → change_first key f s.nodes ≡ some (m, ms)
      → IsConsistent inet s
      → IsConsistent inet (record s { nodes = ms })
  update-IsConsistent key f s m ms same e h =
      IsConsistent-members inet s _ refl refl refl (change_first-Updated key f same s.nodes ms m e)
        h

  pub set_online-IsConsistent :
      (key : Str) (online : Bool) (s : Store)
      → IsConsistent inet s
      → IsConsistent inet (set_online key online s)
  unfolding set_online
  set_online-IsConsistent key online s h =
      let f : NodeState → NodeState = λ n. record n { online = online } in
      elim (Option-cases (change_first key f s.nodes)) [
        | inl e ↦ rw (e, set_online) h
        | inr ((m, ms), e) ↦
            rw (e, set_online)
              (update-IsConsistent key f s m ms
                (λ n. record {
                  id = refl;
                  stable_id = refl;
                  machine_key = refl;
                  ipv4 = refl;
                  ipv6 = refl;
                })
                e h)
      ]

  pub update_map_info-IsConsistent :
      (key node_key disco host : Str) (ends : List Str) (s : Store)
      → IsConsistent inet s
      → IsConsistent inet (update_map_info lib inet key node_key disco host ends s).1
  unfolding update_map_info
  update_map_info-IsConsistent key node_key disco host ends s h =
      let f = map_info node_key disco host ends in
      elim (Option-cases (change_first key f s.nodes)) [
        | inl e ↦ rw (e, update_map_info) h
        | inr ((m, ms), e) ↦
            rw (e, update_map_info)
              (save-IsConsistent _ (
                update-IsConsistent key f s m ms
                  (λ n. record {
                    id = refl;
                    stable_id = refl;
                    machine_key = refl;
                    ipv4 = refl;
                    ipv6 = refl;
                  })
                  e h))
      ]

  add_node-IsConsistent :
      (key node_key host token : Str) (ephemeral shared : Bool) (s : Store)
      → s.next_node_id + 1 < 2 ^ 64
      → s.next_ip_index + 1 < 2 ^ 32
      → All (λ n. n.machine_key ≢ key) s.nodes
      → (r : Outcome (Str × Str)) → address_for inet s.alloc s.next_ip_index ≡ r
      → IsConsistent inet s
      → IsConsistent inet (add_node lib inet key node_key host ephemeral token shared s).1
  unfolding add_node
  add_node-IsConsistent key node_key host token ephemeral shared s hi hx new (throws f) e h =
      rw e (refused-IsConsistent inet s hi hx h)
  add_node-IsConsistent key node_key host token ephemeral shared s hi hx new (ok (v4, v6)) e h =
      let n = new_node s.next_node_id key node_key host ephemeral token shared (v4, v6) in
      rw (e, next_state (ok n) (save lib _))
        (save-IsConsistent _
          (added-IsConsistent inet key node_key host token ephemeral shared v4 v6 s hi hx new e h))

  -- Registering keeps the registry consistent (ids, stable ids, machine keys and addresses are each
  -- held by one node, and all were issued by the counters), whether it returns or throws, as long
  -- as neither counter wraps.
  pub register_node-IsConsistent :
      (key node_key host token : Str) (ephemeral shared : Bool) (s : Store)
      → s.next_node_id + 1 < 2 ^ 64
      → s.next_ip_index + 1 < 2 ^ 32
      → IsConsistent inet s
      → IsConsistent inet (register_node lib inet key node_key host ephemeral token shared s).1
  unfolding register_node
  register_node-IsConsistent key node_key host token ephemeral shared s hi hx h =
      let f = reregistered node_key host ephemeral in
      elim (Option-cases (change_first key f s.nodes)) [
        | inr ((m, ms), e) ↦
            rw (e, register_node, next_state (ok m) (save lib (record s { nodes = ms })))
              (save-IsConsistent _ (
                update-IsConsistent key f s m ms
                  (λ n. record {
                    id = refl;
                    stable_id = refl;
                    machine_key = refl;
                    ipv4 = refl;
                    ipv6 = refl;
                  })
                  e h))
        | inl e ↦
            rw (e, register_node)
              (add_node-IsConsistent key node_key host token ephemeral shared s hi hx
                (change_first-none key f s.nodes e) _ refl h)
      ]
