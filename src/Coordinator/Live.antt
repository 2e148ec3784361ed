-- ===== src/Coordinator/Live.antt =====
-- src/coordinator.cpp: the tick of serve_h2, which feeds the live maps.
use wirebone_cpp.Prelude.{
  ℕ, ◌+◌, not, Option, none, some, List, [], ◌∷◌, Outcome, ok, throws, leb, ◌==◌, if◌then◌else◌,
}
use wirebone_cpp.Prelude.Chain.{◌>>=◌}
use wirebone_cpp.Json.{JsonLib}
use wirebone_cpp.Store.Types.{NodeState}
use wirebone_cpp.Store.Nodes.{find_by_machine}
use wirebone_cpp.Netmap.{Compress, build_full_map, build_keepalive, encode_map_frame}
use wirebone_cpp.Http2.{Server, push_data}
use wirebone_cpp.Coordinator.Session.{LiveMap, Handler}
use wirebone_cpp.Coordinator.Handlers.{Surroundings}

module _ (lib : JsonLib) (compress : Compress) (at : Surroundings) where
  -- A live map whose generation has passed.
  unfoldable pub refresh :
      ℕ → List NodeState → Option NodeState → LiveMap → Server → Outcome (LiveMap × Server)
  refresh gen all none m v = ok (record m { last_gen = gen; last_send = at.steady }, v)
  refresh gen all (some self) m v = do
    frame ←
        encode_map_frame lib compress (build_full_map lib at.created at.stamp self all at.domain)
          m.zstd
    ok (record m { last_gen = gen; last_send = at.steady }, push_data m.stream_id frame v)

  -- The body of the loop.
  unfoldable pub tick_one : ℕ → List NodeState → LiveMap → Server → Outcome (LiveMap × Server)
  tick_one gen all m v =
      if not (gen == m.last_gen)
      then refresh gen all (find_by_machine m.machine all) m v
      else if leb (m.last_send + at.keepalive) at.steady
      then (encode_map_frame lib compress (build_keepalive lib at.stamp) m.zstd >>= λ frame.
          ok (record m { last_send = at.steady }, push_data m.stream_id frame v))
      else ok (m, v)

  -- An exception leaves the entries before it changed.
  unfoldable pub tick_all :
      ℕ → List NodeState → List LiveMap → Server → Outcome (Unit {0}) × List LiveMap × Server
  tick_all gen all [] v = (ok tt, [], v)
  tick_all gen all (m ∷ ms) v = elim (tick_one gen all m v) [
    | throws e ↦ (throws e, m ∷ ms, v)
    | ok (n, w) ↦ let (r, ns, x) = tick_all gen all ms w in (r, n ∷ ns, x)
  ]

  unfoldable pub on_tick : Handler (Unit {0})
  on_tick v =
      let (r, live, server) = tick_all v.map_gen v.store.nodes v.live v.server in
      (r, record v { live = live; server = server })
