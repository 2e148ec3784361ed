-- ===== src/Tests/Ticks.antt =====
-- A tick with a live map that is due for a keep-alive, and one whose generation has passed.
use wirebone_cpp.Prelude.{refl, true, Outcome, some, List, [], ◌∷◌, codes}
use wirebone_cpp.Store.Nodes.{find_by_machine}
use wirebone_cpp.Netmap.{build_keepalive, encode_map_frame, build_full_map}
use wirebone_cpp.Http2.{Server, find_stream}
use wirebone_cpp.Coordinator.Session.{LiveMap}
use wirebone_cpp.Coordinator.Live.{refresh, tick_one, tick_all}
use wirebone_cpp.Coordinator.Updates.{Sent, tick_all-Sent}
use wirebone_cpp.Store.Types.{NodeState}
use wirebone_cpp.Tests.Maps.{member}
use wirebone_cpp.Samples.{sample_json}
use wirebone_cpp.Tests.Joining.{surroundings, session}

abbrev due : LiveMap
due = record { stream_id = 3; machine = codes "mkey:aa"; zstd = true; last_gen = 2; last_send = 0 }

abbrev passed : LiveMap
passed = record { stream_id = 1; machine = 1 ∷ []; zstd = true; last_gen = 1; last_send = 0 }

abbrev nodes : List NodeState
nodes = member 1 ∷ member 2 ∷ []

-- The registry of two nodes; the first one's map is behind.
abbrev left : Outcome (Unit {0}) × List LiveMap × Server
left = tick_all sample_json (λ t. some t) surroundings 2 nodes (due ∷ passed ∷ []) session.server

tick_all-Sent_example :
    Sent sample_json
      (λ t. some t)
      surroundings
      nodes
      (member 1)
      true
      (find_stream 1 session.server.streams)
      (find_stream 1 left.2.streams)
unfolding refresh tick_one tick_all find_by_machine encode_map_frame build_keepalive build_full_map
tick_all-Sent_example =
    tick_all-Sent sample_json (λ t. some t) surroundings 2 nodes (due ∷ []) passed [] left.1
      session.server left.2 (member 1) (refl, tt) tt refl refl refl
