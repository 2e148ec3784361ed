-- ===== src/Coordinator/Announced.antt =====
-- A machine that joins, and the live maps of the others (src/coordinator.cpp).
use wirebone_cpp.Prelude.{
  ℕ, ◌+◌, ◌%◌, ◌^◌, ◌<◌, ◌≡◌, ◌≢◌, ◌⊎◌, true, refl, sym, ap, ◌∙◌, arith, inl, inr, Bool, false,
  Option, none, some, List, [], ◌∷◌, ◌++◌, map, select, All, Str, codes, Outcome, ok, throws, ◌==◌,
  Bool-cases, Option-cases, str_eq,
}
use mathlib.Core.List.{map-append}
use wirebone_cpp.Json.{JsonLib}
use wirebone_cpp.IpAlloc.{Inet}
use wirebone_cpp.Store.Types.{Store, NodeState, PreauthClaim}
use wirebone_cpp.Store.Nodes.{find_by_machine, register_node}
use wirebone_cpp.Store.Nodes.Registry.{register_node_new}
use wirebone_cpp.Netmap.{Compress, build_register_response, build_full_map}
use wirebone_cpp.Netmap.Visible.{MaySee}
use wirebone_cpp.Netmap.Parts.{is_peer_iff, rendered, is_peer, build_full_map_lem}
use wirebone_cpp.Http2.{Stream, find_stream}
use wirebone_cpp.Coordinator.Session.{Session, LiveMap, ◌>>◌, continue, bump_map}
use wirebone_cpp.Coordinator.Requests.{RegisterRequest}
use wirebone_cpp.Coordinator.Handlers.{Surroundings, reply_json, admit}
use wirebone_cpp.Coordinator.Admission.{reply_json_store}
use wirebone_cpp.Coordinator.Live.{on_tick, tick_all}
use wirebone_cpp.Coordinator.Updates.{Sent, tick_all-Sent}

found_before :
    (key : Str) (ns ms : List NodeState) (n : NodeState)
    → find_by_machine key ns ≡ some n
    → find_by_machine key (ns ++ ms) ≡ some n
unfolding find_by_machine
found_before key [] ms n e = cc
found_before key (x ∷ xs) ms n e = elim (Bool-cases (str_eq x.machine_key key)) [
  | inl hit ↦ rw hit (rw hit at e)
  | inr miss ↦ rw miss (found_before key xs ms n (rw miss at e))
]

select_with :
    {A : Type 0} (f : A → Bool) (xs : List A) (x : A)
    → f x ≡ true
    → select f (xs ++ x ∷ []) ≡ select f xs ++ x ∷ []
select_with f [] x e = rw e
select_with f (y ∷ ys) x e = elim (Bool-cases (f y)) [
  | inl h ↦ rw (h, select_with f ys x e)
  | inr h ↦ rw (h, select_with f ys x e)
]

select_without :
    {A : Type 0} (f : A → Bool) (xs : List A) (x : A)
    → f x ≡ false
    → select f (xs ++ x ∷ []) ≡ select f xs
select_without f [] x e = rw e
select_without f (y ∷ ys) x e = elim (Bool-cases (f y)) [
  | inl h ↦ rw (h, select_without f ys x e)
  | inr h ↦ rw (h, select_without f ys x e)
]

module _ (lib : JsonLib) (inet : Inet) (compress : Compress) where
  reply_json_gen :
      (at : Surroundings) (sid : ℕ) (j : lib.Json) (v : Session)
      → (reply_json lib inet compress at sid j v).1.map_gen ≡ v.map_gen
  unfolding reply_json
  reply_json_gen at sid j v = elim (Option-cases (lib.dump j)) [
    | inl e ↦ rw (e, reply_json)
    | inr (t, e) ↦ rw (e, reply_json)
  ]

  -- What an admission that returns has made of the store and the generation.
  record Joined (p : Outcome NodeState × Session) (w : Session) : Type 0 where
    pub node : NodeState
    pub registered : p.0 ≡ ok node
    pub same_store : w.store ≡ p.1.store
    pub stepped : w.map_gen ≡ (p.1.map_gen + 1) % 2 ^ 64

  continued-Joined :
      (at : Surroundings) (sid : ℕ) (p : Outcome NodeState × Session) (w : Session)
      → continue p
          (λ n. ◌>>◌ bump_map (reply_json lib inet compress at sid (build_register_response lib)))
        ≡ (ok tt, w)
      → Joined p w
  unfolding bump_map
  continued-Joined at sid (throws f, v) w e = cc
  continued-Joined at sid (ok n, v) w e =
      let u = record v { map_gen = (v.map_gen + 1) % 2 ^ 64 } in
      let j = build_register_response lib in
      let left : (reply_json lib inet compress at sid j u).1 ≡ w =
        ap (λ (q : Outcome (Unit {0}) × Session). q.1) e in
      record {
        node = n;
        registered = refl;
        same_store =
            ap (λ (x : Session). x.store) (sym left)
            ∙ reply_json_store lib inet compress at sid j u;
        stepped = ap (λ (x : Session). x.map_gen) (sym left) ∙ reply_json_gen at sid j u;
      }

  -- The peers of the map of `self` over these nodes.
  abbrev pub HasPeers : Surroundings → NodeState → List NodeState → List lib.Json → Type 0
  HasPeers at self now peers =
      lib.find (build_full_map lib at.created at.stamp self now at.domain) (codes "Peers")
      ≡ some (lib.array peers)

  -- The peers that `self` had among the nodes, and the new one behind them where `self` may see it;
  -- or only the peers that it had, where it may not.
  abbrev pub Told : Surroundings → NodeState → List NodeState → NodeState → List NodeState → Type 0
  Told at self nodes node now =
      let render = rendered lib at.created at.domain self in
      let old = map render (select (is_peer self) nodes) in
      ((MaySee self node × (node.id ≢ self.id)) × HasPeers at self now (old ++ render node ∷ []))
      ⊎ (¬ (MaySee self node × (node.id ≢ self.id)) × HasPeers at self now old)

  -- The machine is registered behind the nodes that there were, the map of `self` over all of them
  -- tells of it if `self` may see it, and its frame is behind what was pending on the stream.
  pub record Announced (later : Surroundings) (machine : Str) (nodes now : List NodeState)
      (self : NodeState) (zstd : Bool) (before after : Option Stream) : Type 0 where
    pub node : NodeState
    pub same_machine : node.machine_key ≡ machine
    pub behind : now ≡ nodes ++ node ∷ []
    pub told : Told later self nodes node now
    pub sent : Sent lib compress later now self zstd before after

  new_peer :
      (at : Surroundings) (self : NodeState) (nodes : List NodeState) (node : NodeState)
      (now : List NodeState)
      → now ≡ nodes ++ node ∷ []
      → Told at self nodes node now
  new_peer at self nodes node now e =
      let render = rendered lib at.created at.domain self in
      let peers =
        (build_full_map_lem lib at.created at.domain self at.stamp now).0
        ∙ ap (λ ns. some (lib.array (map render ns))) (ap (select (is_peer self)) e) in
      elim (Bool-cases (is_peer self node)) [
        | inl seen ↦ inl (
          (is_peer_iff self node).0 seen,
          peers
              ∙ ap (λ ns. some (lib.array (map render ns)))
                  (select_with (is_peer self) nodes node seen)
              ∙ ap (λ js. some (lib.array js))
                  (map-append render (select (is_peer self) nodes) (node ∷ [])),
        )
        | inr hidden ↦ inr (
          λ h. cc (hidden, (is_peer_iff self node).1 h),
          peers
              ∙ ap (λ ns. some (lib.array (map render ns)))
                  (select_without (is_peer self) nodes node hidden),
        )
      ]

  -- A generation that was stepped is another one.
  stepped_other : (old new : ℕ) → old < 2 ^ 64 → new ≡ (old + 1) % 2 ^ 64 → (new == old) ≡ false
  stepped_other old new h e = ground arith

  -- A tick of a connection, for one of its live maps.
  ticked_Sent :
      (later : Surroundings) (x y : Session) (before : List LiveMap) (m : LiveMap)
      (after : List LiveMap) (self : NodeState) (nodes : List NodeState)
      → x.store.nodes ≡ nodes
      → x.live ≡ before ++ m ∷ after
      → All (λ (o : LiveMap). (o.stream_id == m.stream_id) ≡ false) before
      → All (λ (o : LiveMap). (o.stream_id == m.stream_id) ≡ false) after
      → (x.map_gen == m.last_gen) ≡ false
      → find_by_machine m.machine nodes ≡ some self
      → on_tick lib compress later x ≡ (ok tt, y)
      → Sent lib compress later nodes self m.zstd
          (find_stream m.stream_id x.server.streams)
          (find_stream m.stream_id y.server.streams)
  unfolding on_tick
  ticked_Sent later x y before m after self nodes same_nodes same_live hb ha passed found ticked =
      let q = tick_all lib compress later x.map_gen x.store.nodes x.live x.server in
      let server : q.2 ≡ y.server = ap (λ (o : Outcome (Unit {0}) × Session). o.1.server) ticked in
      let ran : tick_all lib compress later x.map_gen nodes (before ++ m ∷ after) x.server
          ≡ (ok tt, q.1, q.2) =
        (λ i. tick_all lib compress later x.map_gen (sym same_nodes i) (sym same_live i) x.server)
        ∙ (λ i. ((ticked i).0, q.1, q.2)) in
      rw (← server) (
        tick_all-Sent lib compress later x.map_gen nodes before m after q.1 x.server q.2 self hb ha
          passed found ran)

  -- Where a machine that was not known is admitted and its request returns, the next tick of another
  -- connection that returns sends each live map that was up to date, of a node that the registry had,
  -- on a stream of its own, a map of the registry with the machine. The map has the machine behind the
  -- peers that there were if its node may see it and has another number, and only these peers elsewhere.
  pub admit-Announced :
      (at later : Surroundings) (sid : ℕ) (machine : Str) (r : RegisterRequest) (ephemeral : Bool)
      (c : PreauthClaim) (v w x y : Session) (before : List LiveMap) (m : LiveMap)
      (after : List LiveMap) (self : NodeState)
      → find_by_machine machine v.store.nodes ≡ none
      → v.map_gen < 2 ^ 64
      → admit lib inet compress at sid machine r ephemeral c v ≡ (ok tt, w)
      → x.store ≡ w.store
      → x.map_gen ≡ w.map_gen
      → x.live ≡ before ++ m ∷ after
      → All (λ (o : LiveMap). (o.stream_id == m.stream_id) ≡ false) before
      → All (λ (o : LiveMap). (o.stream_id == m.stream_id) ≡ false) after
      → m.last_gen ≡ v.map_gen
      → find_by_machine m.machine v.store.nodes ≡ some self
      → on_tick lib compress later x ≡ (ok tt, y)
      → Announced later machine v.store.nodes w.store.nodes self m.zstd
          (find_stream m.stream_id x.server.streams)
          (find_stream m.stream_id y.server.streams)
  unfolding admit on_tick
  admit-Announced at later sid machine r ephemeral c v w x y before m after self missing small e
        same_store same_gen same_live hb ha current known ticked =
      let p = register_node lib inet machine r.node_key r.host ephemeral c.token c.shared v.store in
      let j = continued-Joined at sid (p.0, record v { store = p.1 }) w e in
      let got =
        register_node_new lib inet machine r.node_key r.host c.token ephemeral c.shared v.store p.1
          j.node missing (λ i. (j.registered i, p.1)) in
      let now = ap (λ (s : Store). s.nodes) j.same_store ∙ got.last in
      record {
        node = j.node;
        same_machine = got.machine_key;
        behind = now;
        told = new_peer later self v.store.nodes j.node w.store.nodes now;
        sent =
            ticked_Sent later x y before m after self w.store.nodes
              (ap (λ (s : Store). s.nodes) same_store) same_live hb ha
              (stepped_other m.last_gen x.map_gen (rw current small)
                (rw current (same_gen ∙ j.stepped)))
              (rw now (found_before m.machine v.store.nodes (j.node ∷ []) self known)) ticked;
      }
