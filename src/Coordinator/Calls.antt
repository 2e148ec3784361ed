-- ===== src/Coordinator/Calls.antt =====
-- What a connection does to the store (src/coordinator.cpp), as calls of the store that the threads
-- of the program share.
use wirebone_cpp.Prelude.{
  ℕ, suc, ◌+◌, ◌≤◌, ◌≡◌, refl, arith, inl, inr, Bool, true, Option, none, some, List, Str, codes,
  str_eq, is_empty, ℤ, Outcome, ok, throws, Bool-cases, Option-cases,
}
use wirebone_cpp.Json.{JsonLib}
use wirebone_cpp.IpAlloc.{Inet}
use wirebone_cpp.Store.Types.{Store, PreauthClaim, next}
use wirebone_cpp.Store.Persist.{keys_on_disk, reload_keys_from_disk, install_keys}
use wirebone_cpp.Store.Keys.{consume_preauth, finish_claim, claim_key}
use wirebone_cpp.Store.Nodes.{find_by_machine}
use wirebone_cpp.Store.Runs.{Step, Reach}
use wirebone_cpp.Netmap.{Compress}
use wirebone_cpp.Coordinator.Session.{Session, Handler, continue}
use wirebone_cpp.Coordinator.Requests.{
  RegisterRequest, MapRequest, parse_body, register_request, map_request, endpoints_from_req,
  readonly,
}
use wirebone_cpp.Coordinator.Handlers.{
  Surroundings, denied, reply_json, admit, claimed, newcomer, register_known_or_new, on_register,
  update_from_map, on_map, on_request, no_claim,
}
use wirebone_cpp.Coordinator.Admission.{reply_json_store, admit_store}
use wirebone_cpp.Coordinator.Invariant.{bumped, finish_map, finish_map_store}

-- A call that reloads reads at least what is on disk when it takes the lock.
module _ (lib : JsonLib) (inet : Inet) (seen : Store → lib.Json → Type 0) (drawn : List ℕ → Type 0)
    (imported : Store → Str → Type 0)
    (current : (s : Store) (j : lib.Json)
      → keys_on_disk lib s.path s.file ≡ some j
      → seen s j) where
  -- A run of at most that many calls.
  abbrev pub Ran : ℕ → Store → Store → Type 0
  Ran k s t = (n : ℕ) × (n ≤ k) × Reach lib inet seen drawn imported s n t

  pub Ran-same : (k : ℕ) (s : Store) → Ran k s s
  Ran-same k s = (0, omega arith, Reach.here)

  pub Ran-more : (j k : ℕ) (s t : Store) → j ≤ k → Ran j s t → Ran k s t
  Ran-more j k s t h (n, small, r) = (n, omega arith, r)

  pub Step-Ran : (s t : Store) → Step lib inet seen drawn imported s t → Ran 1 s t
  Step-Ran s t step = (1, omega arith, Reach.after Reach.here step)

  Reach-trans :
      (s t : Store) (m : ℕ) (u : Store) (n : ℕ)
      → Reach lib inet seen drawn imported s n t
      → Reach lib inet seen drawn imported t m u
      → (k : ℕ) × (k ≡ m + n) × Reach lib inet seen drawn imported s k u
  Reach-trans s t m u n r Reach.here = (n, omega arith, r)
  Reach-trans s t (suc m) u n r (Reach.after {t = v} q step) =
      let (k, e, all) = Reach-trans s t m v n r q in (suc k, omega arith, Reach.after all step)

  pub Ran-trans : (j k : ℕ) (s t u : Store) → Ran j s t → Ran k t u → Ran (j + k) s u
  Ran-trans j k s t u (m, hm, r) (n, hn, q) =
      let (l, e, all) = Reach-trans s t n u m r q in (l, omega arith, all)

  -- What a call leaves, and then the rest, also where the call throws.
  pub continue-Ran :
      {A B : Type 0} (j k : ℕ) (s : Store) (p : Outcome A × Session) (rest : A → Handler B)
      → Ran j s p.1.store
      → ((a : A) (w : Session) → Ran k w.store (rest a w).1.store)
      → Ran (j + k) s (continue p rest).1.store
  continue-Ran j k s (throws e, v) rest h later = Ran-more j (j + k) s v.store (omega arith) h
  continue-Ran j k s (ok a, v) rest h later = Ran-trans j k s v.store _ h (later a v)

  reload-Ran : (s : Store) → Ran 1 s (reload_keys_from_disk lib s).1
  unfolding reload_keys_from_disk install_keys
  reload-Ran s = elim (Option-cases (keys_on_disk lib s.path s.file)) [
    | inl e ↦ rw (e, reload_keys_from_disk) (Ran-same 1 s)
    | inr (j, e) ↦
        rw (e, reload_keys_from_disk) (Step-Ran s _ (Step.reloads j (current s j e) refl))
  ]

  claim-Ran :
      (now : ℤ) (key : Str) (p : Outcome (Unit {0}) × Store)
      → Ran 1 p.1 (next p (λ _ t. finish_claim lib (claim_key now key t.keys) t)).1
  claim-Ran now key (throws e, t) = Ran-same 1 t
  claim-Ran now key (ok u, t) = Step-Ran t _ (Step.claims now key refl)

  consume_preauth-Ran :
      (now : ℤ) (key : Str) (s : Store) → Ran 2 s (consume_preauth lib now key s).1
  unfolding consume_preauth
  consume_preauth-Ran now key s =
      let p = reload_keys_from_disk lib s in
      Ran-trans 1 1 s p.1 _ (reload-Ran s) (claim-Ran now key p)

  module _ (compress : Compress) (at : Surroundings) where
    -- A handler that makes at most that many calls.
    abbrev pub Makes : ℕ → Handler (Unit {0}) → Type 0
    Makes k h = (v : Session) → Ran k v.store (h v).1.store

    reply_json-Makes : (k sid : ℕ) (j : lib.Json) → Makes k (reply_json lib inet compress at sid j)
    reply_json-Makes k sid j v =
        rw (reply_json_store lib inet compress at sid j v) (Ran-same k v.store)

    admit-Makes :
        (sid : ℕ) (machine : Str) (r : RegisterRequest) (ephemeral : Bool) (c : PreauthClaim)
        → Makes 1 (admit lib inet compress at sid machine r ephemeral c)
    admit-Makes sid machine r ephemeral c v =
        rw (admit_store lib inet compress at sid machine r ephemeral c v) (
          Step-Ran v.store _
            (Step.registers machine r.node_key r.host ephemeral c.token c.shared refl))

    claimed-Makes :
        (sid : ℕ) (machine : Str) (r : RegisterRequest) (o : Option PreauthClaim)
        → Makes 1 (claimed lib inet compress at sid machine r o)
    unfolding claimed
    claimed-Makes sid machine r none = reply_json-Makes 1 sid (denied lib inet compress at)
    claimed-Makes sid machine r (some c) = admit-Makes sid machine r c.ephemeral c

    newcomer-Makes :
        (sid : ℕ) (machine : Str) (r : RegisterRequest)
        → Makes 3 (newcomer lib inet compress at sid machine r)
    unfolding newcomer
    newcomer-Makes sid machine r v = elim (Bool-cases (is_empty r.auth)) [
      | inl e ↦ rw (e, newcomer) (reply_json-Makes 3 sid (denied lib inet compress at) v)
      | inr e ↦
          rw (e, newcomer)
            (continue-Ran 2 1 v.store _ (claimed lib inet compress at sid machine r)
              (consume_preauth-Ran at.unix r.auth v.store) (claimed-Makes sid machine r))
    ]

    known_or_new-Makes :
        (sid : ℕ) (machine : Str) (r : RegisterRequest)
        → Makes 3 (register_known_or_new lib inet compress at sid machine r)
    unfolding register_known_or_new
    known_or_new-Makes sid machine r v =
        elim (Option-cases (find_by_machine machine v.store.nodes)) [
          | inl e ↦ rw (register_known_or_new, e) (newcomer-Makes sid machine r v)
          | inr (n, e) ↦
              rw (register_known_or_new, e)
                (Ran-more 1 3 v.store _ (omega arith)
                  (admit-Makes sid machine r r.ephemeral no_claim v))
        ]

    on_register-Makes :
        (sid : ℕ) (machine body : Str) → Makes 3 (on_register lib inet compress at sid machine body)
    unfolding on_register
    on_register-Makes sid machine body v = elim (Option-cases (parse_body lib body)) [
      | inl e ↦ rw (e, on_register) (Ran-same 3 v.store)
      | inr (req, e) ↦
          rw (e, on_register)
            (continue-Ran 0 3 v.store (register_request lib req, v)
              (register_known_or_new lib inet compress at sid machine) (Ran-same 0 v.store)
              (known_or_new-Makes sid machine))
    ]

    update-Makes :
        (machine : Str) (r : MapRequest) (ends : List Str)
        → Makes 1 (update_from_map lib inet compress at machine r ends)
    unfolding update_from_map
    update-Makes machine r ends v = elim (Bool-cases (readonly r)) [
      | inl e ↦ rw (e, update_from_map) (Ran-same 1 v.store)
      | inr e ↦
          rw (e, update_from_map, bumped lib inet compress at _)
            (Step-Ran v.store _ (Step.updates machine r.node_key r.disco_key r.host ends refl))
    ]

    finish_map-Makes :
        (sid : ℕ) (machine : Str) (r : MapRequest)
        → Makes 1 (finish_map lib inet compress at sid machine r)
    finish_map-Makes sid machine r v =
        rw (finish_map_store lib inet compress at sid machine r v)
          (Step-Ran v.store _ (Step.turns machine true refl))

    on_map-Makes :
        (sid : ℕ) (machine body : Str) → Makes 2 (on_map lib inet compress at sid machine body)
    unfolding on_map
    on_map-Makes sid machine body v = elim (Option-cases (parse_body lib body)) [
      | inl e ↦ rw (e, on_map) (Ran-same 2 v.store)
      | inr (req, e) ↦
          rw (e, on_map)
            (continue-Ran 0 2 v.store (map_request lib req, v) _ (Ran-same 0 v.store)
              (λ r w.
                continue-Ran 1 1 w.store
                  (update_from_map lib inet compress at machine r (endpoints_from_req lib req) w)
                  (λ _. finish_map lib inet compress at sid machine r)
                  (update-Makes machine r (endpoints_from_req lib req) w)
                  (λ u. finish_map-Makes sid machine r)))
    ]

    pub on_request-Makes :
        (machine : Str) (sid : ℕ) (method path body : Str)
        → Makes 3 (on_request lib inet compress at machine sid method path body)
    unfolding on_request
    on_request-Makes machine sid method path body v =
        elim (Bool-cases (str_eq method (codes "POST"))) [
          | inr e ↦ rw (on_request, e) (Ran-same 3 v.store)
          | inl e ↦ elim (Bool-cases (str_eq path (codes "/machine/register"))) [
            | inl f ↦ rw (on_request, e, f) (on_register-Makes sid machine body v)
            | inr f ↦ elim (Bool-cases (str_eq path (codes "/machine/map"))) [
              | inl g ↦
                  rw (on_request, e, f, g)
                    (Ran-more 2 3 v.store _ (omega arith) (on_map-Makes sid machine body v))
              | inr g ↦ rw (on_request, e, f, g) (Ran-same 3 v.store)
            ]
          ]
        ]
