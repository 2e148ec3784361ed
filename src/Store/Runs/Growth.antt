-- ===== src/Store/Runs/Growth.antt =====
-- How far one call steps the counters (src/state.cpp).
use wirebone_cpp.Prelude.{
  ◌+◌, ◌≤◌, ◌≡◌, refl, ap, arith, Bool, List, Str, Outcome, ok, throws, inl, inr, Option-cases,
}
use wirebone_cpp.Json.{JsonLib}
use wirebone_cpp.IpAlloc.{Inet, address_for}
use wirebone_cpp.Store.Types.{Store, NodeState, next}
use wirebone_cpp.Store.Persist.{save}
use wirebone_cpp.Store.Persist.Save.{save_members}
use wirebone_cpp.Store.Nodes.{
  register_node, add_node, change_first, reregistered, update_map_info, map_info, set_online,
}

-- Neither counter is stepped twice.
abbrev pub Grown : Store → Store → Type 0
Grown s t = (t.next_node_id ≤ s.next_node_id + 1) × (t.next_ip_index ≤ s.next_ip_index + 1)

pub Grown-same :
    (s t : Store) → t.next_node_id ≡ s.next_node_id → t.next_ip_index ≡ s.next_ip_index → Grown s t
Grown-same s t ei ex = (omega (arith, ei), omega (arith, ex))

module _ (lib : JsonLib) (inet : Inet) where
  save_counters :
      (s : Store)
      → ((save lib s).1.next_node_id ≡ s.next_node_id)
        × ((save lib s).1.next_ip_index ≡ s.next_ip_index)
  save_counters s = (
    ap (λ (x : Store). x.next_node_id) (save_members lib s),
    ap (λ (x : Store). x.next_ip_index) (save_members lib s),
  )

  -- Whatever is answered once the store is as it is.
  answered_Grown :
      (s : Store) (p : Outcome (Unit {0}) × Store) (n : NodeState)
      → Grown s p.1
      → Grown s (next p (λ _ t. (ok n, t))).1
  answered_Grown s (ok u, t) n h = h
  answered_Grown s (throws f, t) n h = h

  saved-Grown : (s t : Store) → Grown s t → Grown s (save lib t).1
  saved-Grown s t (hi, hx) =
      let (ei, ex) = save_counters t in (omega (arith, ei), omega (arith, ex))

  add_node-Grown :
      (key node_key host token : Str) (ephemeral shared : Bool) (s : Store)
      (r : Outcome (Str × Str))
      → address_for inet s.alloc s.next_ip_index ≡ r
      → Grown s (add_node lib inet key node_key host ephemeral token shared s).1
  unfolding add_node
  add_node-Grown key node_key host token ephemeral shared s (throws f) e =
      rw e (omega arith, omega arith)
  add_node-Grown key node_key host token ephemeral shared s (ok v) e =
      rw e (answered_Grown s (save lib _) _ (saved-Grown s _ (omega arith, omega arith)))

  pub register_node-Grown :
      (key node_key host token : Str) (ephemeral shared : Bool) (s : Store)
      → Grown s (register_node lib inet key node_key host ephemeral token shared s).1
  unfolding register_node
  register_node-Grown key node_key host token ephemeral shared s =
      elim (Option-cases (change_first key (reregistered node_key host ephemeral) s.nodes)) [
        | inl e ↦
            rw (e, register_node) (add_node-Grown key node_key host token ephemeral shared s _ refl)
        | inr ((m, ms), e) ↦
            rw (e, register_node)
              (answered_Grown s (save lib (record s { nodes = ms })) m
                (saved-Grown s (record s { nodes = ms }) (omega arith, omega arith)))
      ]

  pub update_map_info-Grown :
      (key node_key disco host : Str) (ends : List Str) (s : Store)
      → Grown s (update_map_info lib inet key node_key disco host ends s).1
  unfolding update_map_info
  update_map_info-Grown key node_key disco host ends s =
      elim (Option-cases (change_first key (map_info node_key disco host ends) s.nodes)) [
        | inl e ↦ rw (e, update_map_info) (Grown-same s s refl refl)
        | inr ((m, ms), e) ↦
            rw (e, update_map_info)
              (saved-Grown s (record s { nodes = ms }) (omega arith, omega arith))
      ]

  pub set_online-Grown : (key : Str) (online : Bool) (s : Store) → Grown s (set_online key online s)
  unfolding set_online
  set_online-Grown key online s =
      elim (Option-cases (change_first key (λ n. record n { online = online }) s.nodes)) [
        | inl e ↦ rw (e, set_online) (Grown-same s s refl refl)
        | inr ((m, ms), e) ↦ rw (e, set_online) (omega arith, omega arith)
      ]
