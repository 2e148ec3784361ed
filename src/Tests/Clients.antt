-- ===== src/Tests/Clients.antt =====
-- A connection that serve_h2 leaves by an exception.
use wirebone_cpp.Prelude.{
  ◌≡◌, ◌∙◌, ap, ◌∷◌, ◌++◌, [], refl, true, false, some, codes, Str, List, if◌then◌else◌,
}
use wirebone_cpp.Http2.{
  on_begin_headers, on_header, on_data, erase_stream, change_stream, find_stream,
}
use wirebone_cpp.Coordinator.Requests.{register_request}
use wirebone_cpp.Coordinator.Handlers.{on_request, on_register}
use wirebone_cpp.Coordinator.Serve.{
  Event, Round, serve_h2, run, round, receive, on_events, on_event, on_frame,
}
use wirebone_cpp.Coordinator.Connection.{handle_client}
use wirebone_cpp.Coordinator.Upgrade.{HandedOver, handle_client_upgrades}
use wirebone_cpp.Coordinator.Client.{
  SystemCall, closings, client_thread, cut_off, closings-client_thread,
}
use wirebone_cpp.Samples.{sample_primitives, sample_json, sample_inet}
use wirebone_cpp.Tests.Handshake.{raw_client, raw_server, machine, control, agreed}
use wirebone_cpp.Tests.Joining.{surroundings, session}
use wirebone_cpp.Tests.Upgrade.{
  arriving, bio, left, request, arriving_read, request-Asks, left-Takes,
}

-- A request whose node key is a number.
abbrev body : Str
body = 5 ∷ 7 ∷ (codes "NodeKey" ++ (2 ∷ 2 ∷ 1 ∷ []))

abbrev bad_round : Round
bad_round = record {
  at = surroundings;
  poll_failed = false;
  gone = false;
  got = some (9 ∷ []);
  events =
      Event.begins 1
      ∷ Event.header 1 (codes ":method") (codes "POST")
      ∷ Event.header 1 (codes ":path") (codes "/machine/register")
      ∷ Event.bytes 1 body
      ∷ Event.frame 1 true true
      ∷ [];
  taken = true;
  first_calls = [];
  first_sent = true;
  second_calls = [];
  second_sent = true;
  goes_on = true;
}

abbrev calls : List SystemCall
calls =
    client_thread sample_primitives bio sample_json sample_inet (λ t. some t) raw_server control
      surroundings (bad_round ∷ []) session 7 arriving

handed :
    HandedOver sample_primitives bio sample_json 49 raw_client raw_server machine control agreed
      left
      (handle_client sample_primitives bio sample_json raw_server control arriving)
handed =
    handle_client_upgrades sample_primitives bio sample_json 49 raw_client raw_server machine
      control agreed arriving left request (9 ∷ []) arriving_read request-Asks left-Takes

cut :
    cut_off sample_primitives bio sample_json sample_inet
      (λ t. some t)
      raw_server
      control
      surroundings
      (bad_round ∷ [])
      session
      (handle_client sample_primitives bio sample_json raw_server control arriving)
    ≡ true
unfolding serve_h2 run round receive on_events on_event on_frame on_request on_register
    register_request on_begin_headers on_header on_data erase_stream change_stream find_stream
cut = rw handed.served refl

closings-client_thread_example : closings calls ≡ 2
closings-client_thread_example =
    closings-client_thread sample_primitives bio sample_json sample_inet (λ t. some t) raw_server
      control surroundings (bad_round ∷ []) session 7 arriving
    ∙ ap (λ b. if b then 2 else 1) cut
