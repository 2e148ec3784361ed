-- ===== src/Coordinator/Client.antt =====
-- src/coordinator.cpp: client_thread, and who closes the descriptor of a connection; the destructor
-- of NoiseConn (src/noise.cpp).
use wirebone_cpp.Prelude.{
  ℕ, ◌+◌, ◌≡◌, inl, inr, refl, arith, Bool, true, false, Option, none, some, List, [], ◌∷◌, ◌++◌,
  Str, codes, str_eq, Outcome, ok, throws, if◌then◌else◌, Bool-cases,
}
use wirebone_cpp.Json.{JsonLib}
use wirebone_cpp.Crypto.Primitives.{Primitives}
use wirebone_cpp.IpAlloc.{Inet}
use wirebone_cpp.Netmap.{Compress}
use wirebone_cpp.Socket.{Socket}
use wirebone_cpp.Http1.{HttpRequest, read_http_request}
use wirebone_cpp.Coordinator.Session.{Session}
use wirebone_cpp.Coordinator.Handlers.{Surroundings}
use wirebone_cpp.Coordinator.Serve.{Round, serve_h2}
use wirebone_cpp.Coordinator.Connection.{
  Ended, closed, upgraded, route, key_reply, after_read, handle_client,
}

-- The calls of the system for a descriptor.
pub data SystemCall : Type 0 where
  shuts_down closes : ℕ → SystemCall

-- `NoiseConn::close`: the calls, and the member `fd_`, `none` for a negative one.
unfoldable pub close_conn : Option ℕ → List SystemCall × Option ℕ
close_conn none = ([], none)
close_conn (some fd) = (shuts_down fd ∷ closes fd ∷ [], none)

abbrev map_outcome : {A B : Type 0} → (A → B) → Outcome A → Outcome B
map_outcome f (ok a) = ok (f a)
map_outcome f (throws e) = throws e

-- How often a descriptor is closed.
abbrev pub closings : List SystemCall → ℕ
closings [] = 0
closings (shuts_down fd ∷ cs) = closings cs
closings (closes fd ∷ cs) = closings cs + 1

module _ (p : Primitives) (bio : Str → Option (List ℕ)) (lib : JsonLib) (inet : Inet)
    (compress : Compress) (raw noise_private : List ℕ) (last : Surroundings) (rounds : List Round)
    (v : Session) where
  -- What serve_h2 ends in for a machine.
  abbrev served : Str → Outcome (Unit {0})
  served machine = (serve_h2 lib inet compress machine last rounds v).0

  -- handle_client behind `/ts2021`: each return of handle_ts2021 closes the descriptor, and so does the
  -- destructor of the NoiseConn, also where serve_h2 throws. The caller does not own it any more.
  unfoldable pub in_ts2021 : ℕ → Outcome Ended → List SystemCall × Outcome Bool
  in_ts2021 fd (throws e) = ([], throws e)
  in_ts2021 fd (ok (closed t)) = (closes fd ∷ [], ok false)
  in_ts2021 fd (ok (upgraded machine conn)) =
      ((close_conn (some fd)).0, map_outcome (λ u. false) (served machine))

  -- The calls of handle_client, and what it returns: whether the caller still owns the descriptor.
  unfoldable pub owned : ℕ → Option (HttpRequest × Str) × Socket → List SystemCall × Outcome Bool
  owned fd (none, t) = ([], ok true)
  owned fd (some (req, extra), t) =
      let ended = route p bio lib raw noise_private req t in
      if str_eq req.path (codes "/ts2021")
      then in_ts2021 fd ended
      else ([], map_outcome (λ r. true) ended)

  -- The end of client_thread; `close_fd` is true where handle_client throws.
  unfoldable pub finish : ℕ → List SystemCall × Outcome Bool → List SystemCall
  finish fd (calls, ok close_fd) = if close_fd then calls ++ (closes fd ∷ []) else calls
  finish fd (calls, throws e) = calls ++ (closes fd ∷ [])

  unfoldable pub client_thread : ℕ → Socket → List SystemCall
  client_thread fd s = finish fd (owned fd (read_http_request s))

  abbrev pub is_thrown : Outcome (Unit {0}) → Bool
  is_thrown (ok u) = false
  is_thrown (throws e) = true

  -- The connection was upgraded, and serve_h2 throws.
  abbrev pub cut_off : Outcome Ended → Bool
  cut_off (ok (upgraded machine conn)) = is_thrown (served machine)
  cut_off (ok (closed t)) = false
  cut_off (throws e) = false

  unwound_closings :
      (fd : ℕ) (o : Outcome (Unit {0}))
      → closings (finish fd ((close_conn (some fd)).0, map_outcome (λ u. false) o))
        ≡ (if is_thrown o then 2 else 1)
  unfolding finish close_conn
  unwound_closings fd (ok u) = refl
  unwound_closings fd (throws e) = refl

  -- Each way through handle_ts2021.
  closings-in_ts2021 :
      (fd : ℕ) (r : Outcome Ended)
      → closings (finish fd (in_ts2021 fd r)) ≡ (if cut_off r then 2 else 1)
  unfolding in_ts2021 finish
  closings-in_ts2021 fd (throws e) = refl
  closings-in_ts2021 fd (ok (closed t)) = refl
  closings-in_ts2021 fd (ok (upgraded machine conn)) = unwound_closings fd (served machine)

  elsewhere_closings :
      (fd : ℕ) (r : Outcome Ended) → closings (finish fd ([], map_outcome (λ r. true) r)) ≡ 1
  unfolding finish
  elsewhere_closings fd (throws e) = refl
  elsewhere_closings fd (ok r) = refl

  key_reply_ends : (t : Socket) → cut_off (key_reply p bio lib noise_private t) ≡ false
  unfolding key_reply
  key_reply_ends t = ground arith

  -- Other requests end without an upgrade.
  elsewhere_ends :
      (req : HttpRequest) (t : Socket)
      → str_eq req.path (codes "/ts2021") ≡ false
      → cut_off (route p bio lib raw noise_private req t) ≡ false
  unfolding route
  elsewhere_ends req t other = elim (Bool-cases (str_eq req.path (codes "/key"))) [
    | inl e ↦ rw e (key_reply_ends t)
    | inr e ↦ elim (Bool-cases (str_eq req.path (codes "/healthz"))) [
      | inl h ↦ rw (e, h)
      | inr h ↦ rw (e, h, other)
    ]
  ]

  closings-owned :
      (fd : ℕ) (req : HttpRequest) (extra : Str) (t : Socket)
      → closings (finish fd (owned fd (some (req, extra), t)))
        ≡ (if cut_off (route p bio lib raw noise_private req t) then 2 else 1)
  unfolding owned
  closings-owned fd req extra t = elim (Bool-cases (str_eq req.path (codes "/ts2021"))) [
    | inl e ↦ rw e (closings-in_ts2021 fd (route p bio lib raw noise_private req t))
    | inr e ↦
        rw (e, elsewhere_ends req t e)
          (elsewhere_closings fd (route p bio lib raw noise_private req t))
  ]

  read_closings :
      (fd : ℕ) (r : Option (HttpRequest × Str) × Socket)
      → closings (finish fd (owned fd r))
        ≡ (if cut_off (after_read p bio lib raw noise_private r) then 2 else 1)
  unfolding after_read owned finish
  read_closings fd (some (req, extra), t) = closings-owned fd req extra t
  read_closings fd (none, t) = refl

  -- The descriptor of a connection is closed once, however its handling ends; twice only where the
  -- connection was upgraded and serve_h2 throws.
  pub closings-client_thread :
      (fd : ℕ) (s : Socket)
      → closings (client_thread fd s)
        ≡ (if cut_off (handle_client p bio lib raw noise_private s) then 2 else 1)
  unfolding client_thread handle_client
  closings-client_thread fd s = read_closings fd (read_http_request s)
