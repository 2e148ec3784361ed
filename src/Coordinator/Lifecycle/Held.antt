-- ===== src/Coordinator/Lifecycle/Held.antt =====
-- What a coordinator holds of the system, and what opens and closes it (src/coordinator.cpp,
-- src/dns.cpp).
use wirebone_cpp.Prelude.{
  ℕ, ◌≡◌, ◌≢◌, ◌⊎◌, inl, inr, refl, ap, ◌∙◌, arith, Bool, true, false, not, ◌||◌, Option, none,
  some, List, [], ◌∷◌, ◌++◌, Str, is_empty, Outcome, ok, throws, Fault, Bool-cases, Option-cases,
}
use wirebone_cpp.IpAlloc.{Inet}
use wirebone_cpp.Socket.Opening.{
  Answers, close_held, close_fd-same, Thread, idle, joinable, overwritten, assign, join,
}
use wirebone_cpp.Dns.Service.{MagicDns, new_dns, parse_hostport, start, start_at, Left}
use wirebone_cpp.Dns.Service
use wirebone_cpp.Coordinator.Listen.{listen_address, listen_tcp, bound_text}
use wirebone_cpp.Coordinator.Listen
use wirebone_cpp.Coordinator.Lifecycle.{Listener, new_listener, stop, reset_dns}

abbrev pub fds : Option ℕ → List ℕ
fds none = []
fds (some fd) = fd ∷ []

abbrev pub dns_fds : Option MagicDns → List ℕ
dns_fds none = []
dns_fds (some d) = fds d.fd

abbrev pub IsJoined : Option MagicDns → Type 0
IsJoined none = Unit {0}
IsJoined (some d) = d.thread ≢ overwritten

-- The descriptors that are open are those of the two sockets; no thread was overwritten; and where it
-- does not run, it has no socket, no MagicDns and no thread.
pub record Held (l : Listener) : Type 0 where
  pub fds_held : l.opened ≡ dns_fds l.dns ++ fds l.listen_fd
  pub own_thread : l.accept_thread ≢ overwritten
  pub dns_thread : IsJoined l.dns
  pub at_rest : l.running ≡ false → (l.listen_fd ≡ none) × (l.dns ≡ none) × (l.accept_thread ≡ idle)

-- A coordinator with nothing open.
abbrev pub rested : Bool → Str → Listener
rested stopped bound = record new_listener { stopped = stopped; bound = bound }

joins : (t : Thread) → t ≢ overwritten → join t ≡ idle
unfolding join
joins idle h = refl
joins joinable h = refl
joins overwritten h = absurd (h refl)

close_listening : (d o : Option ℕ) → close_held o (fds d ++ fds o) ≡ fds d
close_listening none none = refl
close_listening (some x) none = refl
close_listening none (some y) = close_fd-same y []
close_listening (some x) (some y) = ground arith

close_dns : (d : Option ℕ) → close_held d (fds d) ≡ []
close_dns none = refl
close_dns (some x) = close_fd-same x []

no_dns_closed : (o : Option ℕ) → close_held o (fds o) ≡ []
no_dns_closed = close_dns

-- After a stop nothing is held.
pub stop-rested : (l : Listener) → Held l → stop l ≡ rested true l.bound
unfolding stop reset_dns new_listener Service.stop
stop-rested l h = elim (Option-cases l.dns) [
  | inl e ↦
      let own : close_held l.listen_fd l.opened ≡ [] =
        ap (close_held l.listen_fd) (h.fds_held ∙ ap (λ o. dns_fds o ++ fds l.listen_fd) e)
        ∙ close_dns l.listen_fd in
      rw (e, own, joins l.accept_thread h.own_thread)
  | inr (d, e) ↦
      let own : close_held l.listen_fd l.opened ≡ fds d.fd =
        ap (close_held l.listen_fd) (h.fds_held ∙ ap (λ o. dns_fds o ++ fds l.listen_fd) e)
        ∙ close_listening d.fd l.listen_fd in
      rw (e, own, close_dns d.fd, joins l.accept_thread h.own_thread)
]

module _ (inet : Inet) where
  socket_opened :
      (sys : Answers) (spec : Str) (opened : List ℕ) (o : Outcome (ℕ × ℕ))
      → listen_address inet spec ≡ o
      → ((e : Fault) × (listen_tcp inet sys spec opened ≡ (throws e, opened)))
        ⊎ ((fd : ℕ) × (bound : Str) × (listen_tcp inet sys spec opened
              ≡ (ok (fd, bound), fd ∷ opened)))
  unfolding listen_tcp Listen.open_socket
  socket_opened sys spec opened (throws f) e = inl (f, rw (e, listen_tcp))
  socket_opened sys spec opened (ok (address, port)) e = elim (Option-cases sys.fd) [
    | inl g ↦ inl (Fault.runtime_error, rw (e, g, listen_tcp))
    | inr (fd, g) ↦ elim (Bool-cases (not (sys.binds address port) || not sys.listens)) [
      | inl k ↦ inl (Fault.runtime_error, rw (e, g, k, close_fd-same fd opened, listen_tcp))
      | inr k ↦ inr (fd, bound_text inet sys.address sys.port, rw (e, g, k, listen_tcp))
    ]
  ]

  -- A call of listen_tcp that throws leaves nothing open.
  pub listen_tcp-opened :
      (sys : Answers) (spec : Str) (opened : List ℕ)
      → ((e : Fault) × (listen_tcp inet sys spec opened ≡ (throws e, opened)))
        ⊎ ((fd : ℕ) × (bound : Str) × (listen_tcp inet sys spec opened
              ≡ (ok (fd, bound), fd ∷ opened)))
  unfolding listen_tcp Listen.open_socket
  listen_tcp-opened sys spec opened = socket_opened sys spec opened (listen_address inet spec) refl

  -- What a start of MagicDns leaves: its descriptor is the only one that it has opened.
  abbrev pub Opens : List ℕ → Outcome (Unit {0}) × Left → Type 0
  Opens opened p = (d : MagicDns) × (p.1 ≡ (d, fds d.fd ++ opened)) × (d.thread ≢ overwritten)

  open_socket-Opens :
      (sys : Answers) (address port : ℕ) (domain listen : Str) (opened : List ℕ)
      → Opens opened
          (Service.open_socket inet sys sys.fd address port (new_dns domain listen, opened))
  unfolding Service.open_socket new_dns assign
  open_socket-Opens sys address port domain listen opened = elim (Option-cases sys.fd) [
    | inl g ↦ rw g (new_dns domain listen, refl, λ e. cc)
    | inr (fd, g) ↦ elim (Bool-cases (not (sys.binds address port))) [
      | inl k ↦ rw (g, k) (new_dns domain listen, rw (close_fd-same fd opened), λ e. cc)
      | inr k ↦ rw (g, k) (_, refl, λ e. cc)
    ]
  ]

  start_at-Opens :
      (sys : Answers) (domain listen : Str) (opened : List ℕ) (o : Outcome (Str × ℕ))
      → Opens opened (start_at inet sys o (new_dns domain listen, opened))
  unfolding new_dns
  start_at-Opens sys domain listen opened (throws e) = (new_dns domain listen, refl, λ e. cc)
  start_at-Opens sys domain listen opened (ok (host, port)) =
      elim (Option-cases (inet.pton4 host)) [
        | inl g ↦ rw (g, start_at) (open_socket-Opens sys 0 port domain listen opened)
        | inr (a, g) ↦ rw (g, start_at) (open_socket-Opens sys a port domain listen opened)
      ]

  pub start-Opens :
      (sys : Answers) (domain listen : Str) (opened : List ℕ)
      → Opens opened (start inet sys (new_dns domain listen, opened))
  unfolding start new_dns
  start-Opens sys domain listen opened = elim (Bool-cases (is_empty listen)) [
    | inl e ↦ rw e (new_dns domain listen, refl, λ e. cc)
    | inr e ↦ rw e (start_at-Opens sys domain listen opened (parse_hostport listen))
  ]
