-- ===== src/Store/Nodes/Consistent.antt =====
-- The registry's invariant (src/state.cpp): ids, machine keys and addresses are each given once.
use wirebone_cpp.Prelude.{
  ℕ, ◌^◌, ◌<◌, ◌≡◌, ◌≢◌, refl, sym, Option, none, some, List, [], ◌∷◌, Str, All, All-mono, Pairs,
  str_eq, ok, inl, inr, Bool-cases,
}
use wirebone_cpp.Prelude.Decimal.{to_string}
use wirebone_cpp.IpAlloc.{Inet, IpAllocator, address_for}
use wirebone_cpp.IpAlloc.Bounds.{IsValid}
use wirebone_cpp.Store.Types.{NodeState, Store}
use wirebone_cpp.Store.Nodes.{change_first, keep_node}

-- Two nodes share nothing that tells nodes apart.
pub record Apart (m n : NodeState) : Type 0 where
  pub id : m.id ≢ n.id
  pub stable_id : m.stable_id ≢ n.stable_id
  pub machine_key : m.machine_key ≢ n.machine_key
  pub ipv4 : m.ipv4 ≢ n.ipv4
  pub ipv6 : m.ipv6 ≢ n.ipv6

module _ (inet : Inet) where
  -- The node has an id and addresses that the counters have passed.
  pub record Issued (a : IpAllocator) (next_id next_index : ℕ) (n : NodeState) : Type 0 where
    pub index : ℕ
    pub id_lt : n.id < next_id
    pub index_lt : index < next_index
    pub id_text : n.stable_id ≡ to_string n.id
    pub addresses : address_for inet a index ≡ ok (n.ipv4, n.ipv6)

  pub record IsConsistent (s : Store) : Type 0 where
    pub valid : IsValid s.alloc
    pub id_lt : s.next_node_id < 2 ^ 64
    pub apart : Pairs Apart s.nodes
    pub issued : All (Issued s.alloc s.next_node_id s.next_ip_index) s.nodes

-- What an update of a node may not touch.
pub record SameIdentity (m n : NodeState) : Type 0 where
  pub id : n.id ≡ m.id
  pub stable_id : n.stable_id ≡ m.stable_id
  pub machine_key : n.machine_key ≡ m.machine_key
  pub ipv4 : n.ipv4 ≡ m.ipv4
  pub ipv6 : n.ipv6 ≡ m.ipv6

pub Apart-SameIdentity :
    (m n m' n' : NodeState) → SameIdentity m m' → SameIdentity n n' → Apart m n → Apart m' n'
Apart-SameIdentity m n m' n' e f a = record {
  id = rw (e.id, f.id) a.id;
  stable_id = rw (e.stable_id, f.stable_id) a.stable_id;
  machine_key = rw (e.machine_key, f.machine_key) a.machine_key;
  ipv4 = rw (e.ipv4, f.ipv4) a.ipv4;
  ipv6 = rw (e.ipv6, f.ipv6) a.ipv6;
}

pub Issued-SameIdentity :
    (inet : Inet) (a : IpAllocator) (x y : ℕ) (m m' : NodeState)
    → SameIdentity m m'
    → Issued inet a x y m
    → Issued inet a x y m'
Issued-SameIdentity inet a x y m m' e h = record {
  index = h.index;
  id_lt = rw e.id h.id_lt;
  index_lt = h.index_lt;
  id_text = rw (e.id, e.stable_id) h.id_text;
  addresses = rw (e.ipv4, e.ipv6) h.addresses;
}

pub same_self : (n : NodeState) → SameIdentity n n
same_self n = record { id = refl; stable_id = refl; machine_key = refl; ipv4 = refl; ipv6 = refl }

-- The updated list has the same nodes up to what an update may touch.
abbrev pub Updated : List NodeState → List NodeState → Type 0
Updated [] [] = Unit {0}
Updated [] (n ∷ ns) = ⊥
Updated (m ∷ ms) [] = ⊥
Updated (m ∷ ms) (n ∷ ns) = SameIdentity m n × Updated ms ns

pub Updated-self : (ns : List NodeState) → Updated ns ns
Updated-self [] = tt
Updated-self (n ∷ ns) = (same_self n, Updated-self ns)

some_snd :
    (m m' : NodeState) (ms ms' : List NodeState)
    → ◌≡◌ {A = Option (NodeState × List NodeState)} (some (m, ms)) (some (m', ms'))
    → ms ≡ ms'
some_snd m m' ms ms' e = cc

kept-Updated :
    (n : NodeState) (ns ms : List NodeState) (m : NodeState)
    (o : Option (NodeState × List NodeState))
    → keep_node n o ≡ some (m, ms)
    → ((m' : NodeState) (ms' : List NodeState) → o ≡ some (m', ms') → Updated ns ms')
    → Updated (n ∷ ns) ms
kept-Updated n ns ms m none e h = cc
kept-Updated n ns ms m (some (m', ms')) e h =
    rw (sym (some_snd _ _ _ _ e)) (same_self n, h m' ms' refl)

pub change_first-Updated :
    (key : Str) (f : NodeState → NodeState)
    → ((n : NodeState) → SameIdentity n (f n))
    → (ns ms : List NodeState) (m : NodeState) → change_first key f ns ≡ some (m, ms)
    → Updated ns ms
unfolding change_first
change_first-Updated key f same [] ms m e = cc
change_first-Updated key f same (n ∷ ns) ms m e = elim (Bool-cases (str_eq n.machine_key key)) [
  | inl hit ↦ rw (sym (some_snd _ _ _ _ (rw hit at e))) (same n, Updated-self ns)
  | inr miss ↦
      kept-Updated n ns ms m (change_first key f ns) (rw miss at e)
        (λ m' ms' e'. change_first-Updated key f same ns ms' m' e')
]

All-Updated :
    (P : NodeState → Type 0)
    → ((m n : NodeState) → SameIdentity m n → P m → P n)
    → (ms ns : List NodeState) → Updated ms ns
    → All P ms
    → All P ns
All-Updated P keep [] [] u h = tt
All-Updated P keep [] (n ∷ ns) u h = absurd u
All-Updated P keep (m ∷ ms) [] u h = absurd u
All-Updated P keep (m ∷ ms) (n ∷ ns) (e, u) (hm, h) = (keep m n e hm, All-Updated P keep ms ns u h)

Pairs-Updated : (ms ns : List NodeState) → Updated ms ns → Pairs Apart ms → Pairs Apart ns
Pairs-Updated [] [] u h = tt
Pairs-Updated [] (n ∷ ns) u h = absurd u
Pairs-Updated (m ∷ ms) [] u h = absurd u
Pairs-Updated (m ∷ ms) (n ∷ ns) (e, u) (hm, h) = (
  All-mono (Apart m) (Apart n) (λ x. Apart-SameIdentity m x n x e (same_self x)) ns
      (All-Updated (Apart m) (λ x y. Apart-SameIdentity m x m y (same_self m)) ms ns u hm),
  Pairs-Updated ms ns u h,
)

module _ (inet : Inet) where
  -- The invariant speaks of the allocator, the counters and the nodes alone.
  pub IsConsistent-members :
      (s t : Store)
      → t.alloc ≡ s.alloc
      → t.next_node_id ≡ s.next_node_id
      → t.next_ip_index ≡ s.next_ip_index
      → Updated s.nodes t.nodes
      → IsConsistent inet s
      → IsConsistent inet t
  IsConsistent-members s t ea ei ex u h = record {
    valid = rw ea h.valid;
    id_lt = rw ei h.id_lt;
    apart = Pairs-Updated s.nodes t.nodes u h.apart;
    issued =
        rw (ea, ei, ex)
          (All-Updated _ (Issued-SameIdentity inet s.alloc s.next_node_id s.next_ip_index) s.nodes
            t.nodes u h.issued);
  }
