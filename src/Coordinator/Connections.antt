-- ===== src/Coordinator/Connections.antt =====
-- Connections that are served one after the other (src/coordinator.cpp, src/state.cpp).
use wirebone_cpp.Prelude.{
  ℕ, ◌+◌, ◌*◌, ◌<◌, ◌^◌, ◌≡◌, ◌≢◌, refl, ap, ◌∙◌, arith, inl, inr, false, Option, none, some, List,
  [], ◌∷◌, Str, ℤ, Outcome, ok, throws, is_empty, Bool-cases,
}
use wirebone_cpp.Json.{JsonLib}
use wirebone_cpp.IpAlloc.{Inet}
use wirebone_cpp.Store.Types.{Store, NodeState, PreauthKey, PreauthClaim}
use wirebone_cpp.Store.Persist.{keys_on_disk, reload_keys_from_disk}
use wirebone_cpp.Store.Keys.{consume_preauth}
use wirebone_cpp.Store.Keys.Consume.{find_key}
use wirebone_cpp.Store.Keys.Registry.{registry-consume_preauth}
use wirebone_cpp.Store.Nodes.Consistent.{IsConsistent}
use wirebone_cpp.Store.Nodes.{find_by_machine}
use wirebone_cpp.Store.Runs.View.{identity}
use wirebone_cpp.Store.Runs.{Reach}
use wirebone_cpp.Store.Runs.Imports.{Exported}
use wirebone_cpp.Store.Runs.Identity.{NoImport, Reach-identity}
use wirebone_cpp.Store.Runs.Keep.{IsEarlier, Reach-IsConsistent}
use wirebone_cpp.Store.Runs.Once.{Current, Unrevived, Other, granted_once}
use wirebone_cpp.Netmap.{Compress}
use wirebone_cpp.Coordinator.Session.{Session, continue}
use wirebone_cpp.Coordinator.Requests.{RegisterRequest}
use wirebone_cpp.Coordinator.Handlers.{Surroundings, denied, claimed, newcomer}
use wirebone_cpp.Coordinator.Admission.{reply_json_store}
use wirebone_cpp.Coordinator.Serve.{Round, serve_h2}
use wirebone_cpp.Coordinator.Calls.{Ran, Ran-same, Ran-trans}
use wirebone_cpp.Coordinator.Served.{callbacks, serve_h2-Ran}

-- A connection: its machine, its rounds, and the time of its end.
pub record Visit : Type 0 where
  pub machine : Str
  pub rounds : List Round
  pub last : Surroundings

module _ (lib : JsonLib) (inet : Inet) (compress : Compress) where
  -- What the connections leave, also those that end by an exception.
  abbrev pub visited : List Visit → Session → Session
  visited [] v = v
  visited (c ∷ cs) v = visited cs (serve_h2 lib inet compress c.machine c.last c.rounds v).1

  -- The calls of the store that they may make.
  abbrev pub calls : List Visit → ℕ
  calls [] = 0
  calls (c ∷ cs) = 3 * callbacks c.rounds + 1 + calls cs

  visited-Ran :
      (seen : Store → lib.Json → Type 0) (drawn : List ℕ → Type 0) (imported : Store → Str → Type 0)
      (current : (s : Store) (j : lib.Json) → keys_on_disk lib s.path s.file ≡ some j → seen s j)
      (cs : List Visit) (v : Session)
      → Ran lib inet seen drawn imported current (calls cs) v.store (visited cs v).store
  visited-Ran seen drawn imported current [] v =
      Ran-same lib inet seen drawn imported current 0 v.store
  visited-Ran seen drawn imported current (c ∷ cs) v =
      let w = (serve_h2 lib inet compress c.machine c.last c.rounds v).1 in
      Ran-trans lib inet seen drawn imported current (3 * callbacks c.rounds + 1) (calls cs) v.store
        w.store _
        (serve_h2-Ran lib inet seen drawn imported current compress c.machine c.last c.rounds v)
        (visited-Ran seen drawn imported current cs w)

  -- Whatever any number of connections bring, and however they end, the registry stays consistent,
  -- as long as three calls for each of their callbacks, and one for each end, are fewer than the numbers that
  -- the counters have left.
  pub visited-IsConsistent :
      (cs : List Visit) (v : Session)
      → v.store.next_node_id + calls cs < 2 ^ 64
      → v.store.next_ip_index + calls cs < 2 ^ 32
      → IsConsistent inet v.store
      → IsConsistent inet (visited cs v).store
  visited-IsConsistent cs v hi hx h =
      let (n, small, r) =
        visited-Ran (λ s j. Unit {0}) (λ raw. Unit {0}) (Exported lib (IsEarlier inet))
          (λ s j e. tt) cs v in
      Reach-IsConsistent lib inet (λ s j. Unit {0}) (λ raw. Unit {0}) n v.store (visited cs v).store
        (omega arith) (omega arith) h r

  -- Whatever any number of connections bring, and however they end, a machine that is registered
  -- stays registered, and its node keeps its numbers, its addresses and its group.
  pub visited-identity :
      (cs : List Visit) (v : Session) (key : Str) (n : NodeState)
      → find_by_machine key v.store.nodes ≡ some n
      → (m : NodeState) × (find_by_machine key (visited cs v).store.nodes ≡ some m)
        × (identity m ≡ identity n)
  visited-identity cs v key n h =
      let (k, small, r) =
        visited-Ran (λ s j. Unit {0}) (λ raw. Unit {0}) (Exported lib NoImport) (λ s j e. tt) cs
          v in
      Reach-identity lib inet (λ s j. Unit {0}) (λ raw. Unit {0}) v.store k (visited cs v).store key
        n r h

  nodes_kept :
      (sid : ℕ) (machine : Str) (r : RegisterRequest) (at : Surroundings) (v : Session)
      (p : Outcome (Option PreauthClaim) × Store)
      → ((d : PreauthClaim) → p.0 ≢ ok (some d))
      → (continue
          (p.0, record v { store = p.1 })
          (claimed lib inet compress at sid machine r)).1.store.nodes
        ≡ p.1.nodes
  unfolding claimed
  nodes_kept sid machine r at v (throws e, t) refused = refl
  nodes_kept sid machine r at v (ok none, t) refused =
      ap (λ (s : Store). s.nodes)
        (reply_json_store lib inet compress at sid (denied lib inet compress at)
          (record v { store = t }))
  nodes_kept sid machine r at v (ok (some d), t) refused = absurd (refused d refl)

  -- Once a one-shot key was granted, no newcomer joins with it: after any calls of the store by any
  -- threads, on the conditions below, and then any connections that are served one after the other, a
  -- register request that is made with the key for a machine that is not known leaves the nodes as they
  -- were. Of the calls, each that reloads the keys reads what is on disk then, no new key has the same
  -- text, and each text that is imported is the export of a store that has the key as used, or not at
  -- all, with numbers that fit an int.
  pub joined_once :
      (key : Str) (now : ℤ) (calls_made : ℕ) (s u t : Store) (k : PreauthKey) (c : PreauthClaim)
      (cs : List Visit) (v : Session) (at : Surroundings) (sid : ℕ) (machine : Str)
      (r : RegisterRequest)
      → reload_keys_from_disk lib s ≡ (ok tt, u)
      → find_key key u.keys ≡ some k
      → k.reusable ≡ false
      → consume_preauth lib now key s ≡ (ok (some c), t)
      → Reach lib inet
          (Current lib inet key)
          (Other lib inet key)
          (Exported lib (Unrevived lib inet key))
          t
          calls_made
          v.store
      → r.auth ≡ key
      → (newcomer lib inet compress at sid machine r (visited cs v)).1.store.nodes
        ≡ (visited cs v).store.nodes
  unfolding newcomer
  joined_once key now calls_made s u t k c cs v at sid machine r e f once granted before asked =
      let w = visited cs v in
      elim (Bool-cases (is_empty r.auth)) [
        | inl none_given ↦
            rw (none_given, newcomer)
              (ap (λ (s : Store). s.nodes)
                (reply_json_store lib inet compress at sid (denied lib inet compress at) w))
        | inr given ↦
            let (n, small, run) =
              Ran-trans lib inet (Current lib inet key) (Other lib inet key)
                (Exported lib (Unrevived lib inet key)) (λ s j e. e) calls_made (calls cs) t v.store
                w.store (calls_made, omega arith, before)
                (visited-Ran (Current lib inet key) (Other lib inet key)
                  (Exported lib (Unrevived lib inet key)) (λ s j e. e) cs v) in
            let refused : (d : PreauthClaim)
                → (consume_preauth lib at.unix r.auth w.store).0 ≢ ok (some d) =
              λ d. rw asked (
                granted_once lib inet key now at.unix n s u t w.store k c d e f once granted run) in
            let reg = registry-consume_preauth lib at.unix r.auth w.store in
            let same : (consume_preauth lib at.unix r.auth w.store).1.nodes ≡ w.store.nodes = cc in
            rw (given, newcomer)
              (nodes_kept sid machine r at w (consume_preauth lib at.unix r.auth w.store) refused
                ∙ same)
      ]
