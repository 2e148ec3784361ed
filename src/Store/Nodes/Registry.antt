-- ===== src/Store/Nodes/Registry.antt =====
-- What register_node returns, and what find_by_machine finds after it (src/state.cpp).
use wirebone_cpp.Prelude.{
  ℕ, ◌⊎◌, ◌≢◌, codes, ◌<◌, ◌≡◌, refl, sym, ap, ◌∙◌, Bool, true, false, Option, none, some, List, [],
  ◌∷◌, ◌++◌, Str, arith, str_eq, str_eq_iff, Outcome, ok, throws, Fault, inl, inr, Bool-cases,
}
use wirebone_cpp.Prelude.Decimal.{to_string}
use wirebone_cpp.Json.{JsonLib}
use wirebone_cpp.IpAlloc.{Inet, address_for}
use wirebone_cpp.IpAlloc.Unique.{address_for_throws}
use wirebone_cpp.Store.Types.{NodeState, Store, next}
use wirebone_cpp.Store.Persist.{save}
use wirebone_cpp.Store.Persist.Save.{saved_members}
use wirebone_cpp.Store.Nodes.{
  change_first, keep_node, reregistered, new_node, add_node, register_node, find_by_machine,
}

-- The first node of that machine key, changed.
abbrev Changed :
    Str
    → (NodeState → NodeState)
    → List NodeState
    → Option NodeState
    → Option (NodeState × List NodeState)
    → Type 0
Changed key f ns none r = r ≡ none
Changed key f ns (some n) r =
    (ms : List NodeState) × (r ≡ some (f n, ms)) × (find_by_machine key ms ≡ some (f n))

keep_node-Changed :
    (key : Str) (f : NodeState → NodeState) (n : NodeState) (ns : List NodeState)
    (o : Option NodeState) (r : Option (NodeState × List NodeState))
    → str_eq n.machine_key key ≡ false
    → Changed key f ns o r
    → Changed key f (n ∷ ns) o (keep_node n r)
unfolding find_by_machine
keep_node-Changed key f n ns none r miss h = rw h
keep_node-Changed key f n ns (some m) r miss (ms, e, found) = (n ∷ ms, rw e, rw (miss, found))

change_first-Changed :
    (key : Str) (f : NodeState → NodeState)
    → ((n : NodeState) → (f n).machine_key ≡ n.machine_key)
    → (ns : List NodeState) → Changed key f ns (find_by_machine key ns) (change_first key f ns)
unfolding change_first find_by_machine
change_first-Changed key f same [] = refl
change_first-Changed key f same (n ∷ ns) = elim (Bool-cases (str_eq n.machine_key key)) [
  | inl hit ↦ rw hit (f n ∷ ns, refl, rw (same n, hit))
  | inr miss ↦ rw miss (keep_node-Changed key f n ns _ _ miss (change_first-Changed key f same ns))
]

find_by_machine-append :
    (key : Str) (ns : List NodeState) (n : NodeState)
    → n.machine_key ≡ key
    → find_by_machine key ns ≡ none
    → find_by_machine key (ns ++ n ∷ []) ≡ some n
unfolding find_by_machine
find_by_machine-append key [] n same e =
    let hit : str_eq n.machine_key key ≡ true = (str_eq_iff n.machine_key key).1 same in rw hit
find_by_machine-append key (m ∷ ns) n same e = elim (Bool-cases (str_eq m.machine_key key)) [
  | inl hit ↦ cc (rw hit at e)
  | inr miss ↦ rw miss (find_by_machine-append key ns n same (rw miss at e))
]

module _ (lib : JsonLib) (inet : Inet) where
  saved_node :
      (n m : NodeState) (p : Outcome (Unit {0}) × Store) (t : Store)
      → next p (λ _ s. (ok n, s)) ≡ (ok m, t)
      → (m ≡ n) × (p ≡ (ok tt, t))
  saved_node n m (throws f, v) t e = cc
  saved_node n m (ok u, v) t e = ground arith

  -- Where registering a machine that is known returns, only the node key, a hostname that is given
  -- and the ephemeral flag of its node change, and no number is used up.
  pub register_node_known :
      (key node_key host token : Str) (ephemeral shared : Bool) (s t : Store) (n m : NodeState)
      → find_by_machine key s.nodes ≡ some n
      → register_node lib inet key node_key host ephemeral token shared s ≡ (ok m, t)
      → (m ≡ reregistered node_key host ephemeral n)
        × (find_by_machine key t.nodes ≡ some m)
        × (t.next_node_id ≡ s.next_node_id)
        × (t.next_ip_index ≡ s.next_ip_index)
  unfolding register_node
  register_node_known key node_key host token ephemeral shared s t n m found e =
      let f = reregistered node_key host ephemeral in
      let (ms, r, after) = rw found at (change_first-Changed key f (λ n. refl) s.nodes) in
      let (same, saved) =
        saved_node (f n) m (save lib (record s { nodes = ms })) t (rw (r, register_node) at e) in
      let members = saved_members lib (record s { nodes = ms }) t saved in
      (
        same,
        ap (λ (x : Store). find_by_machine key x.nodes) members ∙ after ∙ ap some (sym same),
        ap (λ (x : Store). x.next_node_id) members,
        ap (λ (x : Store). x.next_ip_index) members,
      )

  abbrev Added : Str → Str → Str → Str → Bool → Bool → Store → Store → NodeState → Type 0
  Added key node_key host token ephemeral shared s t m =
      (v : Str × Str) × (address_for inet s.alloc s.next_ip_index ≡ ok v)
      × (m ≡ new_node s.next_node_id key node_key host ephemeral token shared v)
      × (t.nodes ≡ s.nodes ++ m ∷ [])

  add_node_lem :
      (key node_key host token : Str) (ephemeral shared : Bool) (s t : Store) (m : NodeState)
      → (r : Outcome (Str × Str)) → address_for inet s.alloc s.next_ip_index ≡ r
      → add_node lib inet key node_key host ephemeral token shared s ≡ (ok m, t)
      → Added key node_key host token ephemeral shared s t m
  unfolding add_node
  add_node_lem key node_key host token ephemeral shared s t m (throws f) a e =
      cc (rw (a, add_node) at e)
  add_node_lem key node_key host token ephemeral shared s t m (ok v) a e =
      let n = new_node s.next_node_id key node_key host ephemeral token shared v in
      let (same, saved) = saved_node n m _ t (rw (a, add_node) at e) in
      let members = saved_members lib _ t saved in
      (v, a, same, ap (λ (x : Store). x.nodes) members ∙ ap (λ x. s.nodes ++ x ∷ []) (sym same))

  -- The node that was registered has the next number, printed as its stable id, the addresses of the
  -- next index, and what the call was given; it is the last node, and found under its machine key.
  pub record Registered (key given_key host group : Str) (may_vanish seen_by_all : Bool)
      (s t : Store) (m : NodeState) : Type 0 where
    pub addresses : address_for inet s.alloc s.next_ip_index ≡ ok (m.ipv4, m.ipv6)
    pub id : m.id ≡ s.next_node_id
    pub stable_id : m.stable_id ≡ to_string s.next_node_id
    pub machine_key : m.machine_key ≡ key
    pub node_key : m.node_key ≡ given_key
    pub hostname :
        ((host ≡ []) × (m.hostname ≡ codes "node-" ++ to_string s.next_node_id))
        ⊎ ((host ≢ []) × (m.hostname ≡ host))
    pub token : m.token ≡ group
    pub shared : m.shared ≡ seen_by_all
    pub ephemeral : m.ephemeral ≡ may_vanish
    pub offline : m.online ≡ false
    pub last : t.nodes ≡ s.nodes ++ m ∷ []
    pub found : find_by_machine key t.nodes ≡ some m

  named_host :
      (id : ℕ) (key node_key host token : Str) (ephemeral shared : Bool) (v : Str × Str)
      → ((host ≡ [])
          × ((new_node id key node_key host ephemeral token shared v).hostname
              ≡ codes "node-" ++ to_string id))
        ⊎ ((host ≢ []) × ((new_node id key node_key host ephemeral token shared v).hostname ≡ host))
  named_host id key node_key [] token ephemeral shared v = inl (refl, refl)
  named_host id key node_key (c ∷ host) token ephemeral shared v = inr (λ e. cc, refl)

  -- Where registering a machine that is not known returns, the node has the next number, also as its
  -- stable id, the addresses of the next index, and the key, group, visibility and flag that it was
  -- registered with; its hostname is the one given, or made of its number where that is empty. It is
  -- offline, is put behind the other nodes, and is found under its machine key.
  pub register_node_new :
      (key node_key host token : Str) (ephemeral shared : Bool) (s t : Store) (m : NodeState)
      → find_by_machine key s.nodes ≡ none
      → register_node lib inet key node_key host ephemeral token shared s ≡ (ok m, t)
      → Registered key node_key host token ephemeral shared s t m
  unfolding register_node
  register_node_new key node_key host token ephemeral shared s t m missing e =
      let f = reregistered node_key host ephemeral in
      let none_changed = rw missing at (change_first-Changed key f (λ n. refl) s.nodes) in
      let (v, addresses, same, nodes) =
        add_node_lem key node_key host token ephemeral shared s t m _ refl
          (rw (none_changed, register_node) at e) in
      record {
        addresses = addresses ∙ ap (λ (x : NodeState). ok (x.ipv4, x.ipv6)) (sym same);
        id = ap (λ (x : NodeState). x.id) same;
        stable_id = ap (λ (x : NodeState). x.stable_id) same;
        machine_key = ap (λ (x : NodeState). x.machine_key) same;
        node_key = ap (λ (x : NodeState). x.node_key) same;
        hostname = rw same (named_host s.next_node_id key node_key host token ephemeral shared v);
        token = ap (λ (x : NodeState). x.token) same;
        shared = ap (λ (x : NodeState). x.shared) same;
        ephemeral = ap (λ (x : NodeState). x.ephemeral) same;
        offline = ap (λ (x : NodeState). x.online) same;
        last = nodes;
        found = rw nodes (
            find_by_machine-append key s.nodes m (ap (λ (x : NodeState). x.machine_key) same)
              missing);
      }

  -- Once the indices are used up a new machine is refused by an exception, and no node is added.
  pub register_node_exhausted :
      (key node_key host token : Str) (ephemeral shared : Bool) (s : Store)
      → find_by_machine key s.nodes ≡ none
      → s.alloc.ipv4_hosts < s.next_ip_index
      → (register_node lib inet key node_key host ephemeral token shared s).0
          ≡ throws Fault.runtime_error
        × ((register_node lib inet key node_key host ephemeral token shared s).1.nodes ≡ s.nodes)
  unfolding register_node add_node
  register_node_exhausted key node_key host token ephemeral shared s missing over =
      let f = reregistered node_key host ephemeral in
      let none_changed = rw missing at (change_first-Changed key f (λ n. refl) s.nodes) in
      let refused = (address_for_throws inet s.alloc s.next_ip_index).1 (inr over) in
      rw (none_changed, register_node, refused, add_node) (refl, refl)
