-- ===== src/Tests/Announced.antt =====
-- A machine that joins while another one has a live map.
use wirebone_cpp.Prelude.{refl, true, false, some, [], ◌∷◌, codes, Outcome, arith}
use wirebone_cpp.Store.Types.{PreauthClaim}
use wirebone_cpp.Store.Nodes.{find_by_machine, register_node, add_node, change_first}
use wirebone_cpp.Store.Persist.{save, write_file, call_hook, fresh}
use wirebone_cpp.IpAlloc.{address_for}
use wirebone_cpp.Netmap.{encode_map_frame, build_full_map, build_register_response}
use wirebone_cpp.Http2.{find_stream, reply}
use wirebone_cpp.Coordinator.Session.{Session, LiveMap, bump_map}
use wirebone_cpp.Coordinator.Requests.{RegisterRequest}
use wirebone_cpp.Coordinator.Handlers.{admit, reply_json}
use wirebone_cpp.Coordinator.Live.{refresh, tick_one, tick_all, on_tick}
use wirebone_cpp.Coordinator.Announced.{Announced, admit-Announced}
use wirebone_cpp.Samples.{sample_json, sample_inet}
use wirebone_cpp.Tests.Joining.{surroundings, session}
use wirebone_cpp.Tests.Maps.{member}

abbrev request : RegisterRequest
request = record { node_key = codes "n"; host = codes "h"; auth = []; ephemeral = false }

-- A key of the group of the other machine.
abbrev claim : PreauthClaim
claim = record { ephemeral = false; token = codes "team"; shared = false }

abbrev before : Session
before = record session { store = record session.store { nodes = member 1 ∷ [] } }

-- What the admission leaves.
abbrev joined : Outcome (Unit {0}) × Session
joined =
    admit sample_json sample_inet (λ t. some t) surroundings 1 (codes "mkey:bb") request false claim
      before

abbrev watching : LiveMap
watching = record { stream_id = 1; machine = 1 ∷ []; zstd = true; last_gen = 1; last_send = 60 }

-- The other connection, and what its tick leaves.
abbrev other : Session
other = record joined.1 { server = session.server; live = watching ∷ [] }

abbrev ticked : Outcome (Unit {0}) × Session
ticked = on_tick sample_json (λ t. some t) surroundings other

admit-Announced_example :
    Announced sample_json sample_inet
      (λ t. some t)
      surroundings
      (codes "mkey:bb")
      (member 1 ∷ [])
      joined.1.store.nodes
      (member 1)
      true
      (find_stream 1 other.server.streams)
      (find_stream 1 ticked.1.server.streams)
unfolding find_by_machine register_node add_node change_first address_for save write_file call_hook
    fresh bump_map admit reply_json build_register_response reply refresh tick_one tick_all on_tick
    encode_map_frame build_full_map
admit-Announced_example =
    admit-Announced sample_json sample_inet (λ t. some t) surroundings surroundings 1
      (codes "mkey:bb") request false claim before joined.1 other ticked.1 [] watching [] (member 1)
      refl (omega arith) refl refl refl refl tt tt refl refl refl
