-- ===== src/Store/Runs/View.antt =====
-- The registry as an abstract map from machine keys to nodes, of which the calls of the store are
-- steps (src/state.cpp).
use wirebone_cpp.Prelude.{
  ℕ, ◌≡◌, refl, sym, ap, ◌∙◌, inl, inr, Bool, true, false, Option, none, some, List, [], ◌∷◌, ◌++◌,
  Str, str_eq, str_eq_iff, if◌then◌else◌, Bool-cases,
}
use wirebone_cpp.Store.Types.{Store, NodeState}
use wirebone_cpp.Store.Keys.Registry.{}
use wirebone_cpp.Store.Nodes.{change_first, keep_node, find_by_machine}

abbrev pub View : Type 0
View = Str → Option NodeState

-- What is found under each machine key; the order of the nodes, and nodes that are shadowed, are
-- forgotten.
abbrev pub view : Store → View
view s key = find_by_machine key s.nodes

abbrev pub changed_node : (NodeState → NodeState) → Option NodeState → Option NodeState
changed_node f none = none
changed_node f (some n) = some (f n)

-- The node of that key changed, if there is one.
abbrev pub altered : Str → (NodeState → NodeState) → View → View
altered key f v k = if str_eq key k then changed_node f (v k) else v k

abbrev pub with_node : Str → NodeState → View → View
with_node key n v k = if str_eq key k then some n else v k

-- What a node keeps as long as it is registered: its numbers, its machine key, its addresses and its
-- group.
abbrev pub identity : NodeState → ℕ × Str × Str × Str × Str × Str × Bool
identity n = (n.id, n.stable_id, n.machine_key, n.ipv4, n.ipv6, n.token, n.shared)

-- A step of the abstract map.
pub data Moves (v w : View) : Type 0 where
  stays : w ≡ v → Moves v w
  alters :
      (key : Str) (f : NodeState → NodeState)
      → ((n : NodeState) → identity (f n) ≡ identity n)
      → w ≡ altered key f v
      → Moves v w
  joins :
      (key : Str) (n : NodeState)
      → n.machine_key ≡ key
      → v key ≡ none
      → w ≡ with_node key n v
      → Moves v w

abbrev pub changed : List NodeState → Option (NodeState × List NodeState) → List NodeState
changed ns none = ns
changed ns (some (m, ms)) = ms

changed-keep_node :
    (x : NodeState) (ns : List NodeState) (o : Option (NodeState × List NodeState))
    → changed (x ∷ ns) (keep_node x o) ≡ x ∷ changed ns o
changed-keep_node x ns none = refl
changed-keep_node x ns (some (m, ms)) = refl

-- Two keys that a text equals are the same.
hit_other : (a key k : Str) → str_eq a key ≡ false → str_eq a k ≡ true → str_eq key k ≡ false
hit_other a key k miss hit = elim (Bool-cases (str_eq key k)) [
  | inr h ↦ h
  | inl h ↦
      let same : a ≡ key = (str_eq_iff a k).0 hit ∙ sym ((str_eq_iff key k).0 h) in
      cc ((str_eq_iff a key).1 same)
]

pub find_by_machine-changed :
    (key : Str) (f : NodeState → NodeState)
    → ((n : NodeState) → (f n).machine_key ≡ n.machine_key)
    → (ns : List NodeState) (k : Str)
    → find_by_machine k (changed ns (change_first key f ns))
      ≡ altered key f (λ j. find_by_machine j ns) k
unfolding find_by_machine change_first
find_by_machine-changed key f same [] k = elim (Bool-cases (str_eq key k)) [
  | inl h ↦ rw h
  | inr h ↦ rw h
]
find_by_machine-changed key f same (x ∷ xs) k = elim (Bool-cases (str_eq x.machine_key key)) [
  | inl hit ↦
      let it : x.machine_key ≡ key = (str_eq_iff x.machine_key key).0 hit in
      let own : str_eq x.machine_key k ≡ str_eq key k = ap (λ a. str_eq a k) it in
      let new : str_eq (f x).machine_key k ≡ str_eq key k = ap (λ a. str_eq a k) (same x ∙ it) in
      elim (Bool-cases (str_eq key k)) [
        | inl h ↦ rw (hit, new ∙ h, own ∙ h, h)
        | inr h ↦ rw (hit, new ∙ h, own ∙ h, h)
      ]
  | inr miss ↦
      let later = find_by_machine-changed key f same xs k in
      rw (miss, changed-keep_node x xs (change_first key f xs))
        (elim (Bool-cases (str_eq x.machine_key k)) [
          | inl h ↦ rw (h, hit_other x.machine_key key k miss h)
          | inr h ↦ rw h later
        ])
]

-- Behind the other nodes.
pub find_by_machine-behind :
    (key : Str) (n : NodeState)
    → n.machine_key ≡ key
    → (ns : List NodeState) → find_by_machine key ns ≡ none
    → (k : Str) → find_by_machine k (ns ++ n ∷ []) ≡ with_node key n (λ j. find_by_machine j ns) k
unfolding find_by_machine
find_by_machine-behind key n same [] free k =
    let own : str_eq n.machine_key k ≡ str_eq key k = ap (λ a. str_eq a k) same in rw own
find_by_machine-behind key n same (x ∷ xs) free k = elim (Bool-cases (str_eq x.machine_key key)) [
  | inl hit ↦ cc (rw hit at free)
  | inr miss ↦
      let later = find_by_machine-behind key n same xs (rw miss at free) k in
      elim (Bool-cases (str_eq x.machine_key k)) [
        | inl h ↦ rw (h, hit_other x.machine_key key k miss h)
        | inr h ↦ rw h later
      ]
]
