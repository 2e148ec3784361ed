-- ===== src/Store/Nodes/Added.antt =====
-- A new node in a consistent registry (add_node of src/state.cpp).
use wirebone_cpp.Prelude.{
  ◌+◌, ◌%◌, ◌^◌, ◌<◌, ◌≡◌, ◌≢◌, refl, sym, ap, ◌∙◌, Bool, [], ◌∷◌, ◌++◌, Str, All, All-append,
  All-mono, All-zip, Pairs-append, arith, ok, inl, inr,
}
use wirebone_cpp.Prelude.Decimal.{to_string, to_string-injective}
use wirebone_cpp.IpAlloc.{Inet, address_for}
use wirebone_cpp.IpAlloc.Unique.{address_for-injective}
use wirebone_cpp.Store.Types.{NodeState, Store}
use wirebone_cpp.Store.Nodes.{new_node}
use wirebone_cpp.Store.Nodes.Consistent.{Apart, Issued, IsConsistent}

module _ (inet : Inet) where
  Issued-later :
      (s : Store)
      → s.next_node_id + 1 < 2 ^ 64
      → s.next_ip_index + 1 < 2 ^ 32
      → (n : NodeState) → Issued inet s.alloc s.next_node_id s.next_ip_index n
      → Issued inet s.alloc ((s.next_node_id + 1) % 2 ^ 64) ((s.next_ip_index + 1) % 2 ^ 32) n
  Issued-later s hi hx n i = record {
    index = i.index;
    id_lt = omega (arith, i.id_lt);
    index_lt = omega (arith, i.index_lt);
    id_text = i.id_text;
    addresses = i.addresses;
  }

  Apart-new :
      (s : Store) (n m : NodeState) (v4 v6 : Str)
      → IsConsistent inet s
      → address_for inet s.alloc s.next_ip_index ≡ ok (v4, v6)
      → (n.id ≡ s.next_node_id)
        × (n.stable_id ≡ to_string s.next_node_id)
        × (n.ipv4 ≡ v4)
        × (n.ipv6 ≡ v6)
      → m.machine_key ≢ n.machine_key
      → Issued inet s.alloc s.next_node_id s.next_ip_index m
      → Apart m n
  Apart-new s n m v4 v6 h e (eid, etext, e4, e6) ne i =
      let other : m.id ≢ n.id = omega (arith, i.id_lt) in
      let index_ne : (i.index ≡ s.next_ip_index) → ⊥ = omega (arith, i.index_lt) in
      let clash =
        address_for-injective inet s.alloc h.valid i.index s.next_ip_index _ _ v4 v6 i.addresses
          e in
      record {
        id = other;
        stable_id = λ same. other (
            to_string-injective m.id n.id (omega (arith, i.id_lt, h.id_lt)) (omega (arith, h.id_lt))
              (sym i.id_text ∙ same ∙ etext ∙ ap to_string (sym eid)));
        machine_key = ne;
        ipv4 = λ same. index_ne (clash (inl (same ∙ e4)));
        ipv6 = λ same. index_ne (clash (inr (same ∙ e6)));
      }

  Issued-new :
      (s : Store) (n : NodeState) (v4 v6 : Str)
      → s.next_node_id + 1 < 2 ^ 64
      → s.next_ip_index + 1 < 2 ^ 32
      → address_for inet s.alloc s.next_ip_index ≡ ok (v4, v6)
      → (n.id ≡ s.next_node_id)
        × (n.stable_id ≡ to_string s.next_node_id)
        × (n.ipv4 ≡ v4)
        × (n.ipv6 ≡ v6)
      → Issued inet s.alloc ((s.next_node_id + 1) % 2 ^ 64) ((s.next_ip_index + 1) % 2 ^ 32) n
  Issued-new s n v4 v6 hi hx e (eid, etext, e4, e6) = record {
    index = s.next_ip_index;
    id_lt = omega (arith, eid);
    index_lt = omega arith;
    id_text = etext ∙ ap to_string (sym eid);
    addresses = rw (e4, e6) e;
  }

  -- The registry with a new node behind the others stays consistent.
  pub added-IsConsistent :
      (key node_key host token : Str) (ephemeral shared : Bool) (v4 v6 : Str) (s : Store)
      → s.next_node_id + 1 < 2 ^ 64
      → s.next_ip_index + 1 < 2 ^ 32
      → All (λ n. n.machine_key ≢ key) s.nodes
      → address_for inet s.alloc s.next_ip_index ≡ ok (v4, v6)
      → IsConsistent inet s
      → IsConsistent inet (record s {
        next_node_id = (s.next_node_id + 1) % 2 ^ 64;
        next_ip_index = (s.next_ip_index + 1) % 2 ^ 32;
        nodes =
            s.nodes
            ++ new_node s.next_node_id key node_key host ephemeral token shared (v4, v6) ∷ [];
      })
  added-IsConsistent key node_key host token ephemeral shared v4 v6 s hi hx new e h =
      let n = new_node s.next_node_id key node_key host ephemeral token shared (v4, v6) in
      record {
        valid = h.valid;
        id_lt = omega arith;
        apart = Pairs-append Apart s.nodes n h.apart (
            All-zip _ _ (λ m. Apart m n)
              (λ m ne i. Apart-new s n m v4 v6 h e (refl, refl, refl, refl) ne i) s.nodes new
              h.issued);
        issued =
            All-append _ s.nodes (n ∷ []) (All-mono _ _ (Issued-later s hi hx) s.nodes h.issued)
              (Issued-new s n v4 v6 hi hx e (refl, refl, refl, refl), tt);
      }

  -- So it does where only the counters were stepped.
  pub refused-IsConsistent :
      (s : Store)
      → s.next_node_id + 1 < 2 ^ 64
      → s.next_ip_index + 1 < 2 ^ 32
      → IsConsistent inet s
      → IsConsistent inet (record s {
        next_node_id = (s.next_node_id + 1) % 2 ^ 64;
        next_ip_index = (s.next_ip_index + 1) % 2 ^ 32;
      })
  refused-IsConsistent s hi hx h = record {
    valid = h.valid;
    id_lt = omega arith;
    apart = h.apart;
    issued = All-mono _ _ (Issued-later s hi hx) s.nodes h.issued;
  }
