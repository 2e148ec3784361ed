-- ===== src/Netmap/Visible.antt =====
-- Who sees whom: node_visible_to (src/netmap.cpp).
use wirebone_cpp.Prelude.{◌≡◌, ◌≢◌, ◌⊎◌, ◌↔◌, ◌∙◌, true, false, str_eq, str_eq_iff, arith}
use wirebone_cpp.Store.Types.{NodeState}
use wirebone_cpp.Netmap.{node_visible_to}

-- The same node, or one of the two on the shared plane, or both in one group.
abbrev pub MaySee : NodeState → NodeState → Type 0
MaySee self peer =
    (self.id ≡ peer.id)
    ⊎ ((self.shared ≡ true) ⊎ ((peer.shared ≡ true) ⊎ (self.token ≡ peer.token)))

-- Two nodes see each other exactly if they are the same node, one of them is shared, or both have
-- the same token.
pub node_visible_to_iff :
    (self peer : NodeState) → (node_visible_to self peer ≡ true) ↔ MaySee self peer
unfolding node_visible_to
node_visible_to_iff self peer = (
  λ h. ground (arith, str_eq_iff self.token peer.token),
  λ h. ground (arith, str_eq_iff self.token peer.token),
)

-- A node sees another exactly if the other sees it.
pub node_visible_to_symm : (a b : NodeState) → node_visible_to a b ≡ node_visible_to b a
unfolding node_visible_to
node_visible_to_symm a b = ground (arith, str_eq_iff a.token b.token, str_eq_iff b.token a.token)

-- Where no node is shared and the nodes in a row have different ids, two nodes that both see a third
-- see each other.
pub node_visible_to_trans :
    (a b c : NodeState)
    → a.shared ≡ false
    → b.shared ≡ false
    → c.shared ≡ false
    → a.id ≢ b.id
    → b.id ≢ c.id
    → node_visible_to a b ≡ true
    → node_visible_to b c ≡ true
    → node_visible_to a c ≡ true
unfolding node_visible_to
node_visible_to_trans a b c sa sb sc ab bc h k =
    let left : a.token ≡ b.token = ground (arith, str_eq_iff a.token b.token) in
    let right : b.token ≡ c.token = ground (arith, str_eq_iff b.token c.token) in
    let same : str_eq a.token c.token ≡ true = (str_eq_iff a.token c.token).1 (left ∙ right) in
    ground arith
