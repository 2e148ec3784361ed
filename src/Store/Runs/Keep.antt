-- ===== src/Store/Runs/Keep.antt =====
-- The registry's invariant along any sequence of calls (src/state.cpp).
use wirebone_cpp.Prelude.{sym, Str, ℕ, suc, ◌+◌, ◌≤◌, ◌<◌, ◌^◌, ◌≡◌, refl, ap, arith, some, List}
use wirebone_cpp.Json.{JsonLib}
use wirebone_cpp.IpAlloc.{Inet}
use wirebone_cpp.Store.Types.{Store}
use wirebone_cpp.Store.Persist.{persist, load_json, set_persist_hook}
use wirebone_cpp.Store.Persist.Save.{save_members}
use wirebone_cpp.Store.Keys.{claim_key}
use wirebone_cpp.Store.Keys.Registry.{
  registry, registry-finish_claim, registry-create_preauth_key, registry-install_keys,
}
use wirebone_cpp.Store.Nodes.Consistent.{IsConsistent, IsConsistent-members, Updated-self}
use wirebone_cpp.Store.Nodes.Preserve.{
  register_node-IsConsistent, update_map_info-IsConsistent, set_online-IsConsistent,
}
use wirebone_cpp.Store.Persist.Reload.{take_over}
use wirebone_cpp.Store.Runs.{Step, Reach}
use wirebone_cpp.Store.Runs.Imports.{Exported, load_json-Export}
use wirebone_cpp.Store.Runs.Growth.{
  Grown, Grown-same, register_node-Grown, update_map_info-Grown, set_online-Grown,
}

module _ (inet : Inet) where
  -- A store that may be imported: consistent, with addresses out of the same block, and with counters
  -- that are no further.
  pub record IsEarlier (s u : Store) : Type 0 where
    pub consistent : IsConsistent inet u
    pub same_alloc : u.alloc ≡ s.alloc
    pub id_le : u.next_node_id ≤ s.next_node_id
    pub index_le : u.next_ip_index ≤ s.next_ip_index

module _ (lib : JsonLib) (inet : Inet) (seen : Store → lib.Json → Type 0)
    (drawn : List ℕ → Type 0) where
  abbrev Kept : Store → Store → Type 0
  Kept s t = IsConsistent inet t × Grown s t

  imported-Kept :
      (s t : Store) (text : Str)
      → Exported lib (IsEarlier inet) s text
      → t ≡ (load_json lib text s).1
      → Kept s t
  imported-Kept s t text x e =
      let u = x.origin in
      rw (e, load_json-Export lib (IsEarlier inet s) s text x)
        (
          IsConsistent-members inet u (take_over u s) (sym x.holds.same_alloc) refl refl
              (Updated-self u.nodes) x.holds.consistent,
          (omega (arith, x.holds.id_le), omega (arith, x.holds.index_le)),
        )

  -- A call that has no part in the registry.
  registry-Kept : (s u t : Store) → t ≡ u → registry u ≡ registry s → IsConsistent inet s → Kept s t
  registry-Kept s u t same e h =
      let parts : (u.alloc ≡ s.alloc)
          × (u.next_node_id ≡ s.next_node_id)
          × (u.next_ip_index ≡ s.next_ip_index)
          × (u.nodes ≡ s.nodes) =
        (cc, cc, cc, cc) in
      let (ea, ei, ex, en) = parts in
      rw same (
        IsConsistent-members inet s u ea ei ex (rw en (Updated-self s.nodes)) h,
        Grown-same s u ei ex,
      )

  Step-Kept :
      (s t : Store)
      → s.next_node_id + 1 < 2 ^ 64
      → s.next_ip_index + 1 < 2 ^ 32
      → Step lib inet seen drawn (Exported lib (IsEarlier inet)) s t
      → IsConsistent inet s
      → Kept s t
  unfolding persist set_persist_hook
  Step-Kept s t hi hx (Step.registers machine node_key host ephemeral token shared e) h = rw e (
    register_node-IsConsistent lib inet machine node_key host token ephemeral shared s hi hx h,
    register_node-Grown lib inet machine node_key host token ephemeral shared s,
  )
  Step-Kept s t hi hx (Step.updates machine node_key disco_key host endpoints e) h = rw e (
    update_map_info-IsConsistent lib inet machine node_key disco_key host endpoints s h,
    update_map_info-Grown lib inet machine node_key disco_key host endpoints s,
  )
  Step-Kept s t hi hx (Step.turns machine online e) h = rw e (
    set_online-IsConsistent lib inet machine online s h,
    set_online-Grown lib inet machine online s,
  )
  Step-Kept s t hi hx (Step.creates raw now reusable ephemeral expiration token shared other e) h =
      registry-Kept s _ t e
        (registry-create_preauth_key lib raw now reusable ephemeral expiration token shared s) h
  Step-Kept s t hi hx (Step.reloads ks saw e) h =
      registry-Kept s _ t e (registry-install_keys lib (some ks) s) h
  Step-Kept s t hi hx (Step.claims now key e) h =
      registry-Kept s _ t e (registry-finish_claim lib (claim_key now key s.keys) s) h
  Step-Kept s t hi hx (Step.persists e) h =
      registry-Kept s _ t e (ap registry (save_members lib s)) h
  Step-Kept s t hi hx (Step.imports text given e) h = imported-Kept s t text given e
  Step-Kept s t hi hx (Step.hooks given e) h = registry-Kept s _ t e refl h
  Step-Kept s t hi hx (Step.disk can_open can_rename e) h = registry-Kept s _ t e refl h

  -- What n calls leave of the invariant, and how far they step the counters.
  record KeptFor (n : ℕ) (s t : Store) : Type 0 where
    pub consistent : IsConsistent inet t
    pub id_le : t.next_node_id ≤ s.next_node_id + n
    pub index_le : t.next_ip_index ≤ s.next_ip_index + n

  Reach-KeptFor :
      (s : Store) (n : ℕ) (t : Store)
      → s.next_node_id + n < 2 ^ 64
      → s.next_ip_index + n < 2 ^ 32
      → Reach lib inet seen drawn (Exported lib (IsEarlier inet)) s n t
      → IsConsistent inet s
      → KeptFor n s t
  Reach-KeptFor s n t hi hx Reach.here h = record {
    consistent = h;
    id_le = omega arith;
    index_le = omega arith;
  }
  Reach-KeptFor s (suc m) t hi hx (Reach.after {t = u} r step) h =
      let k = Reach-KeptFor s m u (omega arith) (omega arith) r h in
      let (c, (gi, gx)) =
        Step-Kept u t (omega (arith, k.id_le)) (omega (arith, k.index_le)) step k.consistent in
      record {
        consistent = c;
        id_le = omega (arith, k.id_le);
        index_le = omega (arith, k.index_le);
      }

  -- Along any sequence of calls, in any order and also where they throw, the registry stays
  -- consistent, as long as the calls are fewer than the numbers that the counters have left, and a
  -- text that is imported is the export of a consistent store for the same address block, with
  -- counters that are no further and with numbers that fit an int; whatever a call that reloads the
  -- keys has read, and whatever random bytes a new key has.
  pub Reach-IsConsistent :
      (n : ℕ) (s t : Store)
      → s.next_node_id + n < 2 ^ 64
      → s.next_ip_index + n < 2 ^ 32
      → IsConsistent inet s
      → Reach lib inet seen drawn (Exported lib (IsEarlier inet)) s n t
      → IsConsistent inet t
  Reach-IsConsistent n s t hi hx h r = (Reach-KeptFor s n t hi hx r h).consistent
