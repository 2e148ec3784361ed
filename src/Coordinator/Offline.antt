-- ===== src/Coordinator/Offline.antt =====
-- What a connection that has ended leaves (src/coordinator.cpp).
use wirebone_cpp.Prelude.{
  ◌≡◌, sym, ap, ◌∙◌, true, false, Option, none, some, List, [], ◌∷◌, Str, str_eq, Outcome, ok,
  throws, inl, inr, Bool-cases, Option-cases,
}
use wirebone_cpp.Json.{JsonLib}
use wirebone_cpp.IpAlloc.{Inet}
use wirebone_cpp.Store.Types.{NodeState, Store}
use wirebone_cpp.Store.Nodes.{change_first, keep_node, find_by_machine, set_online}
use wirebone_cpp.Netmap.{Compress}
use wirebone_cpp.Coordinator.Session.{Session, continue, bump_map}
use wirebone_cpp.Coordinator.Handlers.{Surroundings, on_hangup}
use wirebone_cpp.Coordinator.Serve.{Round, run, serve_h2, no_streams}

abbrev off : NodeState → NodeState
off n = record n { online = false }

kept_some :
    (x m : NodeState) (o : Option (NodeState × List NodeState)) (ms : List NodeState)
    → keep_node x o ≡ some (m, ms)
    → (rest : List NodeState) × (o ≡ some (m, rest)) × (ms ≡ x ∷ rest)
kept_some x m none ms e = cc
kept_some x m (some (k, rest)) ms e =
    let both : (k ≡ m) × ((x ∷ rest) ≡ ms) = (cc, cc) in
    (rest, ap (λ t. some (t, rest)) both.0, sym both.1)

first_off :
    (key : Str) (x : NodeState) (xs : List NodeState) (n : NodeState)
    → str_eq x.machine_key key ≡ true
    → find_by_machine key (off x ∷ xs) ≡ some n
    → n.online ≡ false
unfolding find_by_machine
first_off key x xs n hit f =
    let same : ◌≡◌ {A = Option NodeState} (some (off x)) (some n) = rw hit at f in
    let this : off x ≡ n = cc in ap (λ (k : NodeState). k.online) (sym this)

-- The first node of that key is the one that was changed.
found_off :
    (key : Str) (ns ms : List NodeState) (m n : NodeState)
    → change_first key off ns ≡ some (m, ms)
    → find_by_machine key ms ≡ some n
    → n.online ≡ false
unfolding change_first find_by_machine
found_off key [] ms m n e f = cc
found_off key (x ∷ xs) ms m n e f = elim (Bool-cases (str_eq x.machine_key key)) [
  | inl hit ↦
      let step = rw hit at e in
      let changed : (off x ∷ xs) ≡ ms = cc in first_off key x xs n hit (rw (sym changed) at f)
  | inr miss ↦
      let (rest, found, split) = kept_some x m (change_first key off xs) ms (rw miss at e) in
      found_off key xs rest m n found (rw miss at (rw split at f))
]

-- No node of that key was found.
missing_off :
    (key : Str) (ns : List NodeState) (n : NodeState)
    → change_first key off ns ≡ none
    → find_by_machine key ns ≡ some n
    → n.online ≡ false
unfolding change_first find_by_machine
missing_off key [] n e f = cc
missing_off key (x ∷ xs) n e f = elim (Bool-cases (str_eq x.machine_key key)) [
  | inl hit ↦ cc (rw hit at e)
  | inr miss ↦ elim (Option-cases (change_first key off xs)) [
    | inl found ↦ missing_off key xs n found (rw miss at f)
    | inr ((m, ms), found) ↦ cc (rw (miss, found) at e)
  ]
]

set_online_off :
    (key : Str) (s : Store) (n : NodeState)
    → find_by_machine key (set_online key false s).nodes ≡ some n
    → n.online ≡ false
unfolding set_online
set_online_off key s n f = elim (Option-cases (change_first key off s.nodes)) [
  | inl e ↦ missing_off key s.nodes n e (rw (e, set_online) at f)
  | inr ((m, ms), e) ↦ found_off key s.nodes ms m n e (rw (e, set_online) at f)
]

module _ (lib : JsonLib) (inet : Inet) (compress : Compress) (machine : Str) where
  hung_up :
      (last : Surroundings) (p : Outcome (Unit {0}) × Session) (w : Session)
      → continue p (λ _. on_hangup lib inet compress last machine) ≡ (ok tt, w)
      → (x : Session) × (w.store.nodes ≡ (set_online machine false x.store).nodes)
  unfolding on_hangup bump_map
  hung_up last (throws f, x) w e = cc
  hung_up last (ok u, x) w e =
      (x, ap (λ (q : Outcome (Unit {0}) × Session). q.1.store.nodes) (sym e))

  -- Where serve_h2 returns, whatever came in its rounds, the node of its machine is offline, if the
  -- registry has one.
  pub serve_h2_offline :
      (last : Surroundings) (rounds : List Round) (v w : Session) (n : NodeState)
      → serve_h2 lib inet compress machine last rounds v ≡ (ok tt, w)
      → find_by_machine machine w.store.nodes ≡ some n
      → n.online ≡ false
  unfolding serve_h2
  serve_h2_offline last rounds v w n e f =
      let (x, same) =
        hung_up last
          (run lib inet compress machine rounds (record v { server = no_streams; live = [] })) w
          e in
      set_online_off machine x.store n (ap (find_by_machine machine) (sym same) ∙ f)
