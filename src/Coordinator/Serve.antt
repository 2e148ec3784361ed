-- ===== src/Coordinator/Serve.antt =====
-- The loop of a connection: serve_h2 of src/coordinator.cpp, with on_frame and run of
-- src/http2_session.cpp. What the socket and nghttp2 do in a round is given with the round.
use wirebone_cpp.Prelude.{
  ℕ, Bool, true, false, not, ◌||◌, Option, none, some, List, [], ◌∷◌, Str, ok, if◌then◌else◌,
}
use wirebone_cpp.Json.{JsonLib}
use wirebone_cpp.IpAlloc.{Inet}
use wirebone_cpp.Netmap.{Compress}
use wirebone_cpp.Http2.{
  Server, find_stream, on_begin_headers, on_header, on_data, on_close, data_read, change_stream,
}
use wirebone_cpp.Coordinator.Session.{Handler, ◌>>◌, continue, pure, on_server}
use wirebone_cpp.Coordinator.Handlers.{Surroundings, on_request, on_hangup}
use wirebone_cpp.Coordinator.Live.{on_tick}

-- A callback of nghttp2 for a request. `frame` tells whether the frame is one of headers or data, and
-- whether it ends the stream.
pub data Event : Type 0 where
  begins : ℕ → Event
  header : ℕ → Str → Str → Event
  bytes : ℕ → Str → Event
  frame : ℕ → Bool → Bool → Event
  closes : ℕ → Event
  -- a read of the stream's data with that much room
  reads : ℕ → ℕ → Event

-- A round of `run`: the time; whether `poll` fails, and whether the connection is gone; what was
-- read, `none` where there was nothing to read; the callbacks that it led to and whether nghttp2 took
-- it; the callbacks of both sends and whether they worked; and whether the session goes on.
pub record Round : Type 0 where
  pub at : Surroundings
  pub poll_failed : Bool
  pub gone : Bool
  pub got : Option (List ℕ)
  pub events : List Event
  pub taken : Bool
  pub first_calls : List Event
  pub first_sent : Bool
  pub second_calls : List Event
  pub second_sent : Bool
  pub goes_on : Bool

abbrev pub no_streams : Server
no_streams = record { streams = []; submitted = []; resumed = [] }

module _ (lib : JsonLib) (inet : Inet) (compress : Compress) (machine : Str) where
  unfoldable pub on_frame : Surroundings → ℕ → Bool → Bool → Handler (Unit {0})
  on_frame at id headers_or_data ends v =
      if not headers_or_data || not ends
      then (ok tt, v)
      else elim (find_stream id v.server.streams) [
        | none ↦ (ok tt, v)
        | some s ↦ on_request lib inet compress at machine s.id s.method s.path s.body v
      ]

  unfoldable pub on_event : Surroundings → Event → Handler (Unit {0})
  on_event at (Event.begins id) = on_server (on_begin_headers id)
  on_event at (Event.header id name value) = on_server (on_header id name value)
  on_event at (Event.bytes id text) = on_server (on_data id text)
  on_event at (Event.frame id headers_or_data ends) = on_frame at id headers_or_data ends
  on_event at (Event.closes id) = on_server (on_close id)
  on_event at (Event.reads id room) =
      on_server (λ v. record v { streams = change_stream id (λ s. (data_read room s).1) v.streams })

  unfoldable pub on_events : Surroundings → List Event → Handler (Unit {0})
  on_events at [] v = (ok tt, v)
  on_events at (e ∷ es) v = continue (on_event at e v) (λ _. on_events at es)

  -- The second half of a round, from the tick on: whether the loop goes on.
  unfoldable pub tick_and_send : Round → Handler Bool
  tick_and_send r = do
    on_tick lib compress r.at
    on_events r.at r.second_calls
    pure (ok (if r.second_sent then r.goes_on else false))

  unfoldable pub send_and_tick : Round → Handler Bool
  send_and_tick r = do
    on_events r.at r.first_calls
    if r.first_sent then tick_and_send r else pure (ok false)

  -- What is done with what was read; nothing, or less, ends the loop.
  unfoldable pub receive : Round → Option (List ℕ) → Handler Bool
  receive r none = send_and_tick r
  receive r (some []) = pure (ok false)
  receive r (some (b ∷ bs)) = do
    on_events r.at r.events
    if r.taken then send_and_tick r else pure (ok false)

  unfoldable pub round : Round → Handler Bool
  round r = if r.poll_failed || r.gone then pure (ok false) else receive r r.got

  -- The loop over the rounds that there are.
  unfoldable pub run : List Round → Handler (Unit {0})
  run [] v = (ok tt, v)
  run (r ∷ rs) v =
      continue (round r v) (λ goes_on. elim goes_on [ true ↦ run rs | false ↦ pure (ok tt) ])

  -- An exception leaves the node as it is; elsewhere it is offline in the end, which is at `last`.
  unfoldable pub serve_h2 : Surroundings → List Round → Handler (Unit {0})
  serve_h2 last rounds v =
      continue (run rounds (record v { server = no_streams; live = [] }))
        (λ _. on_hangup lib inet compress last machine)
