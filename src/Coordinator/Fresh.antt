-- ===== src/Coordinator/Fresh.antt =====
-- What a tick leaves of the live maps (src/coordinator.cpp).
use wirebone_cpp.Prelude.{
  ℕ, ◌≡◌, arith, refl, inl, inr, Option, none, some, List, [], ◌∷◌, map, All, Outcome, ok, throws,
  ◌==◌, ==_iff, Bool-cases,
}
use wirebone_cpp.Json.{JsonLib}
use wirebone_cpp.Store.Types.{NodeState}
use wirebone_cpp.Netmap.{Compress}
use wirebone_cpp.Http2.{Server}
use wirebone_cpp.Coordinator.Session.{LiveMap}
use wirebone_cpp.Coordinator.Handlers.{Surroundings}
use wirebone_cpp.Coordinator.Live.{refresh, tick_one, tick_all}

module _ (lib : JsonLib) (compress : Compress) (at : Surroundings) where
  -- The map is of the generation, and still of its stream.
  abbrev IsFresh : ℕ → LiveMap → LiveMap → Type 0
  IsFresh gen m n = (n.last_gen ≡ gen) × (n.stream_id ≡ m.stream_id)

  refresh-IsFresh :
      (gen : ℕ) (all : List NodeState) (o : Option NodeState) (m n : LiveMap) (v w : Server)
      → refresh lib compress at gen all o m v ≡ ok (n, w)
      → IsFresh gen m n
  unfolding refresh
  refresh-IsFresh gen all none m n v w e = ground arith
  refresh-IsFresh gen all (some self) m n v w e = ground arith

  tick_one-IsFresh :
      (gen : ℕ) (all : List NodeState) (m n : LiveMap) (v w : Server)
      → tick_one lib compress at gen all m v ≡ ok (n, w)
      → IsFresh gen m n
  unfolding tick_one
  tick_one-IsFresh gen all m n v w e = elim (Bool-cases (gen == m.last_gen)) [
    | inl same ↦ ground (arith, ==_iff gen m.last_gen)
    | inr other ↦ refresh-IsFresh gen all _ m n v w (rw (other, tick_one) at e)
  ]

  cons_tick :
      (n : LiveMap) (q : Outcome (Unit {0}) × List LiveMap × Server) (ns : List LiveMap)
      (w : Server)
      → ◌≡◌ {A = Outcome (Unit {0}) × List LiveMap × Server} (q.0, n ∷ q.1, q.2) (ok tt, ns, w)
      → (q ≡ (ok tt, q.1, w)) × (ns ≡ n ∷ q.1)
  cons_tick n (r, ms, v) ns w e = ground arith

  -- What a tick over a list that returns has made of its first entry, and of the others.
  pub record Ticked (gen : ℕ) (all : List NodeState) (m : LiveMap) (ms ns : List LiveMap)
      (v w : Server) : Type 0 where
    pub first : LiveMap
    pub between : Server
    pub others : List LiveMap
    pub ticked : tick_one lib compress at gen all m v ≡ ok (first, between)
    pub ticked_others : tick_all lib compress at gen all ms between ≡ (ok tt, others, w)
    pub same : ns ≡ first ∷ others

  first_entry :
      (gen : ℕ) (all : List NodeState) (m : LiveMap) (ms ns : List LiveMap) (v w : Server)
      (o : Outcome (LiveMap × Server))
      → tick_one lib compress at gen all m v ≡ o
      → tick_all lib compress at gen all (m ∷ ms) v ≡ (ok tt, ns, w)
      → Ticked gen all m ms ns v w
  unfolding tick_all
  first_entry gen all m ms ns v w (throws f) h e = cc (rw (h, tick_all) at e)
  first_entry gen all m ms ns v w (ok (n, u)) h e =
      let (rest, same) =
        cons_tick n (tick_all lib compress at gen all ms u) ns w (rw (h, tick_all) at e) in
      record {
        first = n;
        between = u;
        others = (tick_all lib compress at gen all ms u).1;
        ticked = h;
        ticked_others = rest;
        same = same;
      }

  pub tick_all-Ticked :
      (gen : ℕ) (all : List NodeState) (m : LiveMap) (ms ns : List LiveMap) (v w : Server)
      → tick_all lib compress at gen all (m ∷ ms) v ≡ (ok tt, ns, w)
      → Ticked gen all m ms ns v w
  tick_all-Ticked gen all m ms ns v w e =
      first_entry gen all m ms ns v w (tick_one lib compress at gen all m v) refl e

  abbrev pub AllFresh : ℕ → List LiveMap → List LiveMap → Type 0
  AllFresh gen ms ns =
      All (λ (n : LiveMap). n.last_gen ≡ gen) ns
      × (map (λ (n : LiveMap). n.stream_id) ns ≡ map (λ (m : LiveMap). m.stream_id) ms)

  -- Where a tick returns, each live map is of the generation that the tick saw, and the streams are
  -- those before it, in their order.
  pub tick_all_lem :
      (gen : ℕ) (all : List NodeState) (ms ns : List LiveMap) (v w : Server)
      → tick_all lib compress at gen all ms v ≡ (ok tt, ns, w)
      → AllFresh gen ms ns
  unfolding tick_all
  tick_all_lem gen all [] ns v w e = let same : [] ≡ ns = cc in rw (← same) (tt, refl)
  tick_all_lem gen all (m ∷ ms) ns v w e =
      let t = tick_all-Ticked gen all m ms ns v w e in
      let (fresh, id) = tick_one-IsFresh gen all m t.first v t.between t.ticked in
      let (others, ids) = tick_all_lem gen all ms t.others t.between w t.ticked_others in
      rw t.same ((fresh, others), rw (id, ids))
