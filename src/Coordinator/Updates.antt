-- ===== src/Coordinator/Updates.antt =====
-- What a tick sends to the streams of the live maps (src/coordinator.cpp).
use wirebone_cpp.Prelude.{
  ℕ, ◌≡◌, refl, ◌∙◌, inl, inr, Bool, false, Option, none, some, List, [], ◌∷◌, ◌++◌, All, Outcome,
  ok, throws, ◌==◌, Bool-cases, leb, ◌+◌,
}
use wirebone_cpp.Prelude.Chain.{◌>>=◌}
use wirebone_cpp.Json.{JsonLib}
use wirebone_cpp.Store.Types.{NodeState}
use wirebone_cpp.Store.Nodes.{find_by_machine}
use wirebone_cpp.Netmap.{Compress, build_full_map, build_keepalive, encode_map_frame}
use wirebone_cpp.Http2.{Stream, Server, find_stream, pushed, push_data}
use wirebone_cpp.Http2.Streams.{push_data-found, push_data-other}
use wirebone_cpp.Coordinator.Session.{LiveMap}
use wirebone_cpp.Coordinator.Handlers.{Surroundings}
use wirebone_cpp.Coordinator.Live.{refresh, tick_one, tick_all}
use wirebone_cpp.Coordinator.Fresh.{tick_all-Ticked}

module _ (lib : JsonLib) (compress : Compress) (at : Surroundings) where
  -- The frame of the map of a node.
  abbrev pub map_frame : List NodeState → NodeState → Bool → Outcome (List ℕ)
  map_frame all self zstd =
      encode_map_frame lib compress (build_full_map lib at.created at.stamp self all at.domain) zstd

  -- The stream has the frame of the node's map at its end.
  abbrev pub Sent : List NodeState → NodeState → Bool → Option Stream → Option Stream → Type 0
  Sent all self zstd before after =
      (frame : List ℕ) × (map_frame all self zstd ≡ ok frame)
      × ((s : Stream) → before ≡ some s → after ≡ some (pushed frame s))

  pushed_other :
      (id : ℕ) (m k n : LiveMap) (o : Outcome (List ℕ)) (v w : Server)
      → (m.stream_id == id) ≡ false
      → ◌>>=◌ {B = LiveMap × Server} o (λ frame. ok (k, push_data m.stream_id frame v)) ≡ ok (n, w)
      → find_stream id w.streams ≡ find_stream id v.streams
  pushed_other id m k n (throws f) v w h e = cc
  pushed_other id m k n (ok frame) v w h e =
      let this : push_data m.stream_id frame v ≡ w = cc in
      rw (← this) (push_data-other id m.stream_id frame v h)

  unchanged :
      (id : ℕ) (m n : LiveMap) (v w : Server)
      → ◌≡◌ {A = Outcome (LiveMap × Server)} (ok (m, v)) (ok (n, w))
      → find_stream id w.streams ≡ find_stream id v.streams
  unchanged id m n v w e = let same : v ≡ w = cc in rw same

  refresh-other :
      (id gen : ℕ) (all : List NodeState) (o : Option NodeState) (m n : LiveMap) (v w : Server)
      → (m.stream_id == id) ≡ false
      → refresh lib compress at gen all o m v ≡ ok (n, w)
      → find_stream id w.streams ≡ find_stream id v.streams
  unfolding refresh
  refresh-other id gen all none m n v w h e = let same : v ≡ w = cc in rw same
  refresh-other id gen all (some self) m n v w h e =
      pushed_other id m _ n (map_frame all self m.zstd) v w h e

  tick_one-other :
      (id gen : ℕ) (all : List NodeState) (m n : LiveMap) (v w : Server)
      → (m.stream_id == id) ≡ false
      → tick_one lib compress at gen all m v ≡ ok (n, w)
      → find_stream id w.streams ≡ find_stream id v.streams
  unfolding tick_one refresh
  tick_one-other id gen all m n v w h e = elim (Bool-cases (gen == m.last_gen)) [
    | inr passed ↦
        refresh-other id gen all (find_by_machine m.machine all) m n v w h
          (rw (passed, tick_one) at e)
    | inl same ↦ elim (Bool-cases (leb (m.last_send + at.keepalive) at.steady)) [
      | inl due ↦
          pushed_other id m (record m { last_send = at.steady }) n
            (encode_map_frame lib compress (build_keepalive lib at.stamp) m.zstd) v w h
            (rw (same, due, tick_one) at e)
      | inr early ↦ unchanged id m n v w (rw (same, early, tick_one) at e)
    ]
  ]

  frame_pushed :
      (gen : ℕ) (all : List NodeState) (m n : LiveMap) (v w : Server) (self : NodeState)
      (o : Outcome (List ℕ))
      → map_frame all self m.zstd ≡ o
      → refresh lib compress at gen all (some self) m v ≡ ok (n, w)
      → Sent all self m.zstd (find_stream m.stream_id v.streams) (find_stream m.stream_id w.streams)
  unfolding refresh
  frame_pushed gen all m n v w self (throws f) o e = cc (rw (o, refresh) at e)
  frame_pushed gen all m n v w self (ok frame) o e =
      let both = rw (o, refresh) at e in
      let this : push_data m.stream_id frame v ≡ w = cc in
      (frame, o, λ s f. rw (← this) (push_data-found m.stream_id frame v s f))

  tick_one-Sent :
      (gen : ℕ) (all : List NodeState) (m n : LiveMap) (v w : Server) (self : NodeState)
      → (gen == m.last_gen) ≡ false
      → find_by_machine m.machine all ≡ some self
      → tick_one lib compress at gen all m v ≡ ok (n, w)
      → Sent all self m.zstd (find_stream m.stream_id v.streams) (find_stream m.stream_id w.streams)
  unfolding tick_one refresh
  tick_one-Sent gen all m n v w self passed found e =
      frame_pushed gen all m n v w self (map_frame all self m.zstd) refl
        (rw (passed, found, tick_one, refresh) at e)

  tick_all-other :
      (id gen : ℕ) (all : List NodeState) (ms ns : List LiveMap) (v w : Server)
      → All (λ (m : LiveMap). (m.stream_id == id) ≡ false) ms
      → tick_all lib compress at gen all ms v ≡ (ok tt, ns, w)
      → find_stream id w.streams ≡ find_stream id v.streams
  unfolding tick_all
  tick_all-other id gen all [] ns v w h e = let same : v ≡ w = cc in rw same
  tick_all-other id gen all (m ∷ ms) ns v w (hm, h) e =
      let t = tick_all-Ticked lib compress at gen all m ms ns v w e in
      tick_all-other id gen all ms t.others t.between w h t.ticked_others
      ∙ tick_one-other id gen all m t.first v t.between hm t.ticked

  -- Where a tick returns, a live map whose generation has passed, of a node that the registry has and on a
  -- stream of its own, was sent the map of its node in that registry: the map has a frame, and the stream
  -- has it behind what was pending.
  pub tick_all-Sent :
      (gen : ℕ) (all : List NodeState) (before : List LiveMap) (m : LiveMap)
      (after ns : List LiveMap) (v w : Server) (self : NodeState)
      → All (λ (o : LiveMap). (o.stream_id == m.stream_id) ≡ false) before
      → All (λ (o : LiveMap). (o.stream_id == m.stream_id) ≡ false) after
      → (gen == m.last_gen) ≡ false
      → find_by_machine m.machine all ≡ some self
      → tick_all lib compress at gen all (before ++ m ∷ after) v ≡ (ok tt, ns, w)
      → Sent all self m.zstd (find_stream m.stream_id v.streams) (find_stream m.stream_id w.streams)
  tick_all-Sent gen all [] m after ns v w self hb ha passed found e =
      let t = tick_all-Ticked lib compress at gen all m after ns v w e in
      let later =
        tick_all-other m.stream_id gen all after t.others t.between w ha t.ticked_others in
      rw later (tick_one-Sent gen all m t.first v t.between self passed found t.ticked)
  tick_all-Sent gen all (o ∷ before) m after ns v w self (ho, hb) ha passed found e =
      let t = tick_all-Ticked lib compress at gen all o (before ++ m ∷ after) ns v w e in
      let earlier = tick_one-other m.stream_id gen all o t.first v t.between ho t.ticked in
      rw (← earlier) (
        tick_all-Sent gen all before m after t.others t.between w self hb ha passed found
          t.ticked_others)
