-- ===== src/Tests/Serving.antt =====
-- A connection that is served for a round and then gone.
use wirebone_cpp.Prelude.{◌≡◌, ◌∷◌, [], refl, true, false, some, codes, Str, List}
use wirebone_cpp.Store.Nodes.{find_by_machine, set_online, change_first}
use wirebone_cpp.Http2.{on_begin_headers, on_header, erase_stream, change_stream}
use wirebone_cpp.Coordinator.Session.{Session, bump_map}
use wirebone_cpp.Coordinator.Handlers.{on_hangup}
use wirebone_cpp.Coordinator.Live.{on_tick, tick_all}
use wirebone_cpp.Coordinator.Serve.{
  Event, Round, serve_h2, run, round, receive, send_and_tick, tick_and_send, on_events, on_event,
}
use wirebone_cpp.Coordinator.Offline.{serve_h2_offline}
use wirebone_cpp.Samples.{sample_json, sample_inet}
use wirebone_cpp.Tests.Joining.{surroundings, session}
use wirebone_cpp.Tests.Maps.{member}

abbrev machine : Str
machine = 1 ∷ []

abbrev before : Session
before = record session { store = record session.store { nodes = member 2 ∷ member 1 ∷ [] } }

abbrev first : Round
first = record {
  at = surroundings;
  poll_failed = false;
  gone = false;
  got = some (9 ∷ []);
  events = Event.begins 1 ∷ Event.header 1 (codes ":method") (codes "POST") ∷ [];
  taken = true;
  first_calls = [];
  first_sent = true;
  second_calls = [];
  second_sent = true;
  goes_on = true;
}

abbrev rounds : List Round
rounds = first ∷ record first { gone = true } ∷ []

abbrev ended : Session
ended = (serve_h2 sample_json sample_inet (λ t. some t) machine surroundings rounds before).1

serve_h2_offline_example : (record (member 1) { online = false }).online ≡ false
unfolding serve_h2 run round receive send_and_tick tick_and_send on_events on_event on_begin_headers
    on_header erase_stream change_stream on_tick tick_all on_hangup bump_map set_online change_first
    find_by_machine
serve_h2_offline_example =
    serve_h2_offline sample_json sample_inet (λ t. some t) machine surroundings rounds before ended
      (record (member 1) { online = false }) refl refl
