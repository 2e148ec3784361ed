-- ===== src/Coordinator/Served.antt =====
-- Whole connections (serve_h2 of src/coordinator.cpp) as calls of the store.
use wirebone_cpp.Prelude.{
  ℕ, ◌+◌, ◌*◌, ◌≤◌, ◌≡◌, refl, arith, inl, inr, Bool, true, false, not, ◌||◌, if◌then◌else◌, Option,
  none, some, List, [], ◌∷◌, Str, length, Outcome, ok, Bool-cases, Option-cases,
}
use wirebone_cpp.Json.{JsonLib}
use wirebone_cpp.IpAlloc.{Inet}
use wirebone_cpp.Store.Types.{Store}
use wirebone_cpp.Store.Persist.{keys_on_disk}
use wirebone_cpp.Store.Runs.{Step}
use wirebone_cpp.Netmap.{Compress}
use wirebone_cpp.Http2.{find_stream}
use wirebone_cpp.Coordinator.Session.{Session, Handler, continue, bump_map, pure}
use wirebone_cpp.Coordinator.Handlers.{Surroundings, on_hangup}
use wirebone_cpp.Coordinator.Live.{on_tick}
use wirebone_cpp.Coordinator.Serve.{
  Event, Round, no_streams, on_frame, on_event, on_events, tick_and_send, send_and_tick, receive,
  round, run, serve_h2,
}
use wirebone_cpp.Coordinator.Calls.{
  Ran, Ran-same, Step-Ran, Ran-more, continue-Ran, on_request-Makes,
}

-- The callbacks of a connection.
abbrev pub callbacks : List Round → ℕ
callbacks [] = 0
callbacks (r ∷ rs) = length r.events + length r.first_calls + length r.second_calls + callbacks rs

module _ (lib : JsonLib) (inet : Inet) (seen : Store → lib.Json → Type 0) (drawn : List ℕ → Type 0)
    (imported : Store → Str → Type 0)
    (current : (s : Store) (j : lib.Json) → keys_on_disk lib s.path s.file ≡ some j → seen s j)
    (compress : Compress) (machine : Str) where
  abbrev Goes : {A : Type 0} → ℕ → Handler A → Type 0
  Goes k h = (v : Session) → Ran lib inet seen drawn imported current k v.store (h v).1.store

  stays : {A : Type 0} (k : ℕ) (r : Outcome A) → Goes k (pure r)
  stays k r v = Ran-same lib inet seen drawn imported current k v.store

  on_frame-Goes :
      (at : Surroundings) (id : ℕ) (headers_or_data ends : Bool)
      → Goes 3 (on_frame lib inet compress machine at id headers_or_data ends)
  unfolding on_frame
  on_frame-Goes at id headers_or_data ends v = elim (Bool-cases (not headers_or_data || not ends)) [
    | inl e ↦ rw (e, on_frame) (Ran-same lib inet seen drawn imported current 3 v.store)
    | inr e ↦ elim (Option-cases (find_stream id v.server.streams)) [
      | inl f ↦ rw (e, f, on_frame) (Ran-same lib inet seen drawn imported current 3 v.store)
      | inr (s, f) ↦
          rw (e, f, on_frame)
            (on_request-Makes lib inet seen drawn imported current compress at machine s.id s.method
              s.path s.body v)
    ]
  ]

  on_event-Goes : (at : Surroundings) (e : Event) → Goes 3 (on_event lib inet compress machine at e)
  unfolding on_event
  on_event-Goes at (Event.begins id) v = Ran-same lib inet seen drawn imported current 3 v.store
  on_event-Goes at (Event.header id name value) v =
      Ran-same lib inet seen drawn imported current 3 v.store
  on_event-Goes at (Event.bytes id text) v = Ran-same lib inet seen drawn imported current 3 v.store
  on_event-Goes at (Event.frame id headers_or_data ends) v =
      on_frame-Goes at id headers_or_data ends v
  on_event-Goes at (Event.closes id) v = Ran-same lib inet seen drawn imported current 3 v.store
  on_event-Goes at (Event.reads id room) v = Ran-same lib inet seen drawn imported current 3 v.store

  on_events-Goes :
      (at : Surroundings) (es : List Event) (k : ℕ)
      → k ≡ 3 * length es
      → Goes k (on_events lib inet compress machine at es)
  unfolding on_events
  on_events-Goes at [] k e v = Ran-same lib inet seen drawn imported current k v.store
  on_events-Goes at (x ∷ es) k e v =
      let split : 3 + 3 * length es ≡ k = omega arith in
      rw (← split) (
        continue-Ran lib inet seen drawn imported current 3 (3 * length es) v.store
          (on_event lib inet compress machine at x v)
          (λ _. on_events lib inet compress machine at es) (on_event-Goes at x v)
          (λ u. on_events-Goes at es (3 * length es) refl))

  tick-Goes : (at : Surroundings) → Goes 0 (on_tick lib compress at)
  unfolding on_tick
  tick-Goes at v = Ran-same lib inet seen drawn imported current 0 v.store

  -- One handler and then another.
  then-Goes :
      {A B : Type 0} (j k : ℕ) (h : Handler A) (rest : A → Handler B)
      → Goes j h
      → ((a : A) → Goes k (rest a))
      → Goes (j + k) (λ v. continue (h v) rest)
  then-Goes j k h rest first later v =
      continue-Ran lib inet seen drawn imported current j k v.store (h v) rest (first v) later

  Goes-more : {A : Type 0} (j k : ℕ) (h : Handler A) → j ≤ k → Goes j h → Goes k h
  Goes-more j k h small g v =
      Ran-more lib inet seen drawn imported current j k v.store _ small (g v)

  tick_and_send-Goes :
      (r : Round) → Goes (3 * length r.second_calls) (tick_and_send lib inet compress machine r)
  unfolding tick_and_send
  tick_and_send-Goes r =
      let k = 3 * length r.second_calls in
      Goes-more (0 + (k + 0)) k (tick_and_send lib inet compress machine r) (omega arith) (
        then-Goes 0 (k + 0) (on_tick lib compress r.at) _ (tick-Goes r.at) (λ u.
          then-Goes k 0 (on_events lib inet compress machine r.at r.second_calls) _
            (on_events-Goes r.at r.second_calls k refl)
            (λ w. stays 0 (ok (if r.second_sent then r.goes_on else false)))))

  -- A part of a round that is left out where the call before it has failed.
  if_good :
      (b : Bool) (k : ℕ) (h : Handler Bool) → Goes k h → Goes k (if b then h else pure (ok false))
  if_good true k h g v = g v
  if_good false k h g v = Ran-same lib inet seen drawn imported current k v.store

  send_and_tick-Goes :
      (r : Round)
      → Goes
          (3 * length r.first_calls + 3 * length r.second_calls)
          (send_and_tick lib inet compress machine r)
  unfolding send_and_tick
  send_and_tick-Goes r =
      then-Goes (3 * length r.first_calls) (3 * length r.second_calls)
        (on_events lib inet compress machine r.at r.first_calls) _
        (on_events-Goes r.at r.first_calls _ refl)
        (λ u. if_good r.first_sent _ _ (tick_and_send-Goes r))

  receive-Goes :
      (r : Round) (got : Option (List ℕ)) (k : ℕ)
      → k ≡ 3 * length r.events + (3 * length r.first_calls + 3 * length r.second_calls)
      → Goes k (receive lib inet compress machine r got)
  unfolding receive
  receive-Goes r none k e v =
      Goes-more _ k (send_and_tick lib inet compress machine r) (omega arith) (send_and_tick-Goes r)
        v
  receive-Goes r (some []) k e v = Ran-same lib inet seen drawn imported current k v.store
  receive-Goes r (some (b ∷ bs)) k e v =
      Goes-more (3 * length r.events + (3 * length r.first_calls + 3 * length r.second_calls)) k
        (receive lib inet compress machine r (some (b ∷ bs))) (omega arith)
        (then-Goes (3 * length r.events) (3 * length r.first_calls + 3 * length r.second_calls)
          (on_events lib inet compress machine r.at r.events) _
          (on_events-Goes r.at r.events _ refl) (λ u. if_good r.taken _ _ (send_and_tick-Goes r)))
        v

  round-Goes :
      (r : Round) (k : ℕ)
      → k ≡ 3 * length r.events + (3 * length r.first_calls + 3 * length r.second_calls)
      → Goes k (round lib inet compress machine r)
  unfolding round
  round-Goes r k e = elim (Bool-cases (r.poll_failed || r.gone)) [
    | inl f ↦ λ v. rw (f, round) (Ran-same lib inet seen drawn imported current k v.store)
    | inr f ↦ λ v. rw (f, round) (receive-Goes r r.got k e v)
  ]

  looped :
      (goes_on : Bool) (k : ℕ) (h : Handler (Unit {0}))
      → Goes k h
      → Goes k (elim goes_on [ true ↦ h | false ↦ pure (ok tt) ])
  looped true k h g v = g v
  looped false k h g v = Ran-same lib inet seen drawn imported current k v.store

  run-Goes : (rs : List Round) → Goes (3 * callbacks rs) (run lib inet compress machine rs)
  unfolding run
  run-Goes [] v = Ran-same lib inet seen drawn imported current 0 v.store
  run-Goes (r ∷ rs) v =
      let k = 3 * length r.events + (3 * length r.first_calls + 3 * length r.second_calls) in
      Goes-more (k + 3 * callbacks rs) (3 * callbacks (r ∷ rs))
        (run lib inet compress machine (r ∷ rs)) (omega arith)
        (then-Goes k (3 * callbacks rs) (round lib inet compress machine r) _ (round-Goes r k refl)
          (λ goes_on. looped goes_on _ (run lib inet compress machine rs) (run-Goes rs)))
        v

  hangup-Goes : (last : Surroundings) → Goes 1 (on_hangup lib inet compress last machine)
  unfolding on_hangup bump_map
  hangup-Goes last v =
      Step-Ran lib inet seen drawn imported current v.store _ (Step.turns machine false refl)

  -- Whatever a connection brings until it ends, and whether it ends by an exception or not, it changes the
  -- store only by a run of the store's own calls: at most three for each callback of nghttp2, and
  -- one for the end.
  pub serve_h2-Ran :
      (last : Surroundings) (rounds : List Round) (v : Session)
      → Ran lib inet seen drawn imported current
          (3 * callbacks rounds + 1)
          v.store
          (serve_h2 lib inet compress machine last rounds v).1.store
  unfolding serve_h2
  serve_h2-Ran last rounds v =
      let w = record v { server = no_streams; live = [] } in
      continue-Ran lib inet seen drawn imported current (3 * callbacks rounds) 1 v.store
        (run lib inet compress machine rounds w) _ (run-Goes rounds w) (λ u. hangup-Goes last)
