-- ===== src/Tests/Connections.antt =====
-- Connections that are served one after the other.
use wirebone_cpp.Prelude.{pos, ◌≡◌, refl, true, false, some, [], ◌∷◌, codes, Str, arith}
use wirebone_cpp.Store.Persist.{fresh}
use wirebone_cpp.Store.Keys.{claim_of}
use wirebone_cpp.Store.Keys.Consume.{find_key}
use wirebone_cpp.Store.Nodes.Consistent.{IsConsistent}
use wirebone_cpp.Coordinator.Session.{Session}
use wirebone_cpp.Coordinator.Requests.{RegisterRequest}
use wirebone_cpp.Coordinator.Handlers.{newcomer}
use wirebone_cpp.Coordinator.Serve.{Event, Round, serve_h2}
use wirebone_cpp.Coordinator.Calls.{Ran}
use wirebone_cpp.Coordinator.Served.{serve_h2-Ran}
use wirebone_cpp.Coordinator.Connections.{
  Visit, visited, visited-IsConsistent, visited-identity, joined_once,
}
use wirebone_cpp.Store.Types.{NodeState, Store}
use wirebone_cpp.Store.Nodes.{find_by_machine, set_online}
use wirebone_cpp.Store.Runs.{Reach, Step}
use wirebone_cpp.Store.Runs.View.{identity}
use wirebone_cpp.Tests.Maps.{member}
use wirebone_cpp.Samples.{sample_json, sample_inet}
use wirebone_cpp.Tests.Joining.{surroundings, session, body, consistent}
use wirebone_cpp.Tests.Runs.{
  machine, Anything, AnyBytes, saved, loaded, used, read_back, first_use, key,
}
use wirebone_cpp.Tests.Preauth.{one_shot}

-- A register request in one round, after which the connection is gone.
abbrev joining : Round
joining = record {
  at = surroundings;
  poll_failed = false;
  gone = false;
  got = some (9 ∷ []);
  events =
      Event.begins 1
      ∷ Event.header 1 (codes ":method") (codes "POST")
      ∷ Event.header 1 (codes ":path") (codes "/machine/register")
      ∷ Event.bytes 1 body
      ∷ Event.frame 1 true true
      ∷ [];
  taken = true;
  first_calls = [];
  first_sent = true;
  second_calls = [];
  second_sent = true;
  goes_on = false;
}

abbrev visit : Visit
visit = record { machine = codes "mkey:aa"; rounds = joining ∷ []; last = surroundings }

abbrev AnyText : Store → Str → Type 0
AnyText s text = Unit {0}

serve_h2-Ran_example :
    Ran sample_json sample_inet Anything AnyBytes AnyText
      (λ s j e. tt)
      16
      session.store
      (serve_h2 sample_json sample_inet
        (λ t. some t)
        (codes "mkey:aa")
        surroundings
        (joining ∷ [])
        session).1.store
serve_h2-Ran_example =
    serve_h2-Ran sample_json sample_inet Anything AnyBytes AnyText (λ s j e. tt) (λ t. some t)
      (codes "mkey:aa") surroundings (joining ∷ []) session

visited-IsConsistent_example :
    IsConsistent sample_inet
      (visited sample_json sample_inet (λ t. some t) (visit ∷ visit ∷ []) session).store
unfolding fresh
visited-IsConsistent_example =
    visited-IsConsistent sample_json sample_inet (λ t. some t) (visit ∷ visit ∷ []) session
      (omega arith) (omega arith) consistent

abbrev after_use : Session
after_use = record session { store = set_online machine true used }

abbrev request : RegisterRequest
request = record { node_key = codes "n"; host = codes "h"; auth = key; ephemeral = false }

joined_once_example :
    (newcomer sample_json sample_inet
      (λ t. some t)
      surroundings
      1
      (codes "mkey:bb")
      request
      (visited sample_json sample_inet (λ t. some t) (visit ∷ []) after_use)).1.store.nodes
    ≡ (visited sample_json sample_inet (λ t. some t) (visit ∷ []) after_use).store.nodes
unfolding find_key
joined_once_example =
    joined_once sample_json sample_inet (λ t. some t) key (pos 800) 1 saved loaded used one_shot
      (claim_of one_shot) (visit ∷ []) after_use surroundings 1 (codes "mkey:bb") request read_back
      refl refl first_use (Reach.after Reach.here (Step.turns machine true refl)) refl

abbrev with_member : Session
with_member = record session { store = record session.store { nodes = member 1 ∷ [] } }

known : find_by_machine (1 ∷ []) with_member.store.nodes ≡ some (member 1)
unfolding find_by_machine
known = refl

visited-identity_example :
    (m : NodeState) × (find_by_machine
        (1 ∷ [])
        (visited sample_json sample_inet (λ t. some t) (visit ∷ visit ∷ []) with_member).store.nodes
      ≡ some m)
    × (identity m ≡ identity (member 1))
visited-identity_example =
    visited-identity sample_json sample_inet (λ t. some t) (visit ∷ visit ∷ []) with_member (1 ∷ [])
      (member 1) known
