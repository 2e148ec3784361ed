-- ===== src/Coordinator/Lifecycle/Starts.antt =====
-- A coordinator over its starts and stops (src/coordinator.cpp).
use wirebone_cpp.Prelude.{
  ℕ, ◌≡◌, inl, inr, refl, ap, ◌∙◌, Bool, true, false, none, List, [], ◌∷◌, Str, is_empty, Outcome,
  ok, throws, Fault, Bool-cases, Option-cases,
}
use wirebone_cpp.IpAlloc.{Inet}
use wirebone_cpp.Socket.Opening.{Answers, idle, assign}
use wirebone_cpp.Coordinator.Listen.{listen_tcp}
use wirebone_cpp.Coordinator.Control.{Config}
use wirebone_cpp.Coordinator.Lifecycle.{
  Listener, new_listener, stop, reset_dns, start_dns, start_listen, with_thread, run_async, Turn,
  served, run, listening,
}
use wirebone_cpp.Coordinator.Lifecycle.Held.{
  fds, Held, rested, stop-rested, listen_tcp-opened, start-Opens,
}

module _ (inet : Inet) (cfg : Config) where
  -- Between `start_listen` and the assignment of the thread.
  abbrev pub Starting : Listener → Type 0
  Starting l = Held l × (l.running ≡ true) × (l.accept_thread ≡ idle)

  with_thread-Held :
      (p : Outcome (Unit {0}) × Listener) → Starting p.1 → Held (with_thread inet cfg p).1
  unfolding assign
  with_thread-Held (throws e, l) h = h.0
  with_thread-Held (ok u, l) (h, r, i) = record {
    fds_held = h.fds_held;
    own_thread = rw i (λ e. cc);
    dns_thread = h.dns_thread;
    at_rest = λ e. absurd cc;
  }

  -- The state behind a start of MagicDns over a coordinator that listens.
  start_dns-Starting :
      (udp : Answers) (l : Listener)
      → l.running ≡ true
      → l.dns ≡ none
      → l.accept_thread ≡ idle
      → l.opened ≡ fds l.listen_fd
      → Starting (start_dns inet cfg udp l).1
  unfolding start_dns reset_dns
  start_dns-Starting udp l r d t o = elim (Bool-cases (is_empty cfg.dns_listen)) [
    | inl e ↦ rw e (
        (
          record {
            fds_held = rw d o;
            own_thread = rw t (λ e. cc);
            dns_thread = rw d tt;
            at_rest = λ e. absurd cc;
          },
          r,
          t,
        ))
    | inr e ↦
        let (x, left, fine) = start-Opens inet udp cfg.domain cfg.dns_listen l.opened in
        rw (e, d, left)
          ((
            record {
              fds_held = rw o refl;
              own_thread = rw t (λ e. cc);
              dns_thread = fine;
              at_rest = λ e. absurd cc;
            },
            r,
            t,
          ))
  ]

  start_listen-Starting :
      (tcp udp : Answers) (l : Listener)
      → Held l
      → l.running ≡ false
      → Starting (start_listen inet cfg tcp udp l).1
  unfolding start_listen
  start_listen-Starting tcp udp l h r =
      let (no_fd, no_dns, no_thread) = h.at_rest r in
      let closed : l.opened ≡ [] = h.fds_held ∙ rw (no_dns, no_fd) refl in
      elim (listen_tcp-opened inet tcp cfg.listen l.opened) [
        | inl (e, q) ↦
            rw (r, q)
              ((
                record {
                  fds_held = h.fds_held;
                  own_thread = h.own_thread;
                  dns_thread = h.dns_thread;
                  at_rest = λ e. absurd cc;
                },
                refl,
                no_thread,
              ))
        | inr (fd, bound, q) ↦
            rw (r, q) (start_dns-Starting udp _ refl no_dns no_thread (ap (λ o. fd ∷ o) closed))
      ]

  -- A coordinator that runs is not started again.
  start_refused :
      (tcp udp : Answers) (l : Listener)
      → l.running ≡ true
      → start_listen inet cfg tcp udp l ≡ (throws Fault.runtime_error, l)
  unfolding start_listen
  start_refused tcp udp l r = simp r

  start_listen-Held :
      (tcp udp : Answers) (l : Listener) → Held l → Held (start_listen inet cfg tcp udp l).1
  unfolding start_listen
  start_listen-Held tcp udp l h = elim (Bool-cases l.running) [
    | inl r ↦ rw (start_refused tcp udp l r) h
    | inr r ↦ (start_listen-Starting tcp udp l h r).0
  ]

  run_async-Held :
      (tcp udp : Answers) (l : Listener) → Held l → Held (run_async inet cfg tcp udp l).1
  unfolding run_async
  run_async-Held tcp udp l h = elim (Bool-cases l.running) [
    | inl r ↦ rw (start_refused tcp udp l r) h
    | inr r ↦
        with_thread-Held (start_listen inet cfg tcp udp l) (start_listen-Starting tcp udp l h r)
  ]

  served_state : (turns : List Turn) (p : Outcome (Unit {0}) × Listener) → (served turns p).1 ≡ p.1
  served_state turns (throws e, l) = refl
  served_state turns (ok u, l) = refl

  -- The states of a coordinator that is started and stopped, in any order and with any answers.
  pub data Reach : Listener → Type 0 where
    begins : Reach new_listener
    starts : {l : Listener} (tcp udp : Answers) → Reach l → Reach (run_async inet cfg tcp udp l).1
    serves :
        {l : Listener} (tcp udp : Answers) (turns : List Turn)
        → Reach l
        → Reach (run inet cfg tcp udp turns l).1
    stops : {l : Listener} → Reach l → Reach (stop l)

  rested-Held : (stopped : Bool) (bound : Str) → Held (rested stopped bound)
  unfolding new_listener
  rested-Held stopped bound = record {
    fds_held = refl;
    own_thread = λ e. cc;
    dns_thread = tt;
    at_rest = λ e. (refl, refl, refl);
  }

  -- Over any starts and stops in any order, whatever the system answers and also where a start throws,
  -- the descriptors that are open are those of the two sockets that are held, no thread is overwritten,
  -- and a coordinator that does not run has no socket, no MagicDns and no thread.
  pub Reach-Held : (l : Listener) → Reach l → Held l
  unfolding run new_listener
  Reach-Held _ begins = rested-Held false []
  Reach-Held _ (starts {l} tcp udp r) = run_async-Held tcp udp l (Reach-Held l r)
  Reach-Held _ (serves {l} tcp udp turns r) =
      rw (served_state turns (start_listen inet cfg tcp udp l))
        (start_listen-Held tcp udp l (Reach-Held l r))
  Reach-Held _ (stops {l} r) = rw (stop-rested l (Reach-Held l r)) (rested-Held true l.bound)

  start_dns_running :
      (udp : Answers) (l : Listener) → (start_dns inet cfg udp l).1.running ≡ l.running
  unfolding start_dns reset_dns
  start_dns_running udp l = elim (Bool-cases (is_empty cfg.dns_listen)) [
    | inl e ↦ rw e
    | inr e ↦ elim (Option-cases l.dns) [
      | inl n ↦ simp (e, n, reset_dns)
      | inr (d, n) ↦ simp (e, n, reset_dns)
    ]
  ]

  listening_running :
      (udp : Answers) (q : Outcome (ℕ × Str) × List ℕ) (l : Listener)
      → (listening inet cfg udp q l).1.running ≡ l.running
  listening_running udp (throws e, opened) l = refl
  listening_running udp (ok (fd, bound), opened) l = start_dns_running udp _

  with_thread_running :
      (p : Outcome (Unit {0}) × Listener) → (with_thread inet cfg p).1.running ≡ p.1.running
  with_thread_running (throws e, l) = refl
  with_thread_running (ok u, l) = refl

  start_listen_running :
      (tcp udp : Answers) (l : Listener) → (start_listen inet cfg tcp udp l).1.running ≡ true
  unfolding start_listen
  start_listen_running tcp udp l = elim (Bool-cases l.running) [
    | inl r ↦
        ap (λ (p : Outcome (Unit {0}) × Listener). p.1.running) (start_refused tcp udp l r) ∙ r
    | inr r ↦ simp r (listening_running udp (listen_tcp inet tcp cfg.listen l.opened) _)
  ]

  -- After any start, whether it returned or threw, the coordinator counts as running, and each later
  -- start throws and changes nothing, until it is stopped.
  pub start_twice :
      (tcp udp tcp_later udp_later : Answers) (l : Listener)
      → ((run_async inet cfg tcp udp l).1.running ≡ true)
        × (run_async inet cfg tcp_later udp_later (run_async inet cfg tcp udp l).1
            ≡ (throws Fault.runtime_error, (run_async inet cfg tcp udp l).1))
  unfolding run_async
  start_twice tcp udp tcp_later udp_later l =
      let started = start_listen inet cfg tcp udp l in
      let r = with_thread_running started ∙ start_listen_running tcp udp l in
      (
        r,
        ap (with_thread inet cfg)
            (start_refused tcp_later udp_later (with_thread inet cfg started).1 r),
      )

  -- A start that goes as one of a new coordinator.
  abbrev AsNew : Outcome (Unit {0}) × Listener → Outcome (Unit {0}) × Listener → Type 0
  AsNew p q = (p.0 ≡ q.0) × (q.0 ≡ ok tt → p.1 ≡ q.1)

  listening-AsNew :
      (udp : Answers) (q : Outcome (ℕ × Str) × List ℕ) (stopped : Bool) (bound : Str)
      → AsNew
          (with_thread inet cfg (
            listening inet cfg udp q
              (record (rested stopped bound) { running = true; stopped = false })))
          (with_thread inet cfg
            (listening inet cfg udp q (record new_listener { running = true; stopped = false })))
  unfolding new_listener
  listening-AsNew udp (throws e, opened) stopped bound = (refl, λ e. cc)
  listening-AsNew udp (ok (fd, text), opened) stopped bound = (refl, λ e. refl)

  -- A coordinator that was stopped, whatever came before, can be started again: the start ends as one
  -- of a new coordinator does with the same answers of the system, and where it returns it leaves
  -- the same state.
  pub start_again :
      (tcp udp : Answers) (l : Listener)
      → Reach l
      → ((run_async inet cfg tcp udp (stop l)).0 ≡ (run_async inet cfg tcp udp new_listener).0)
        × ((run_async inet cfg tcp udp new_listener).0 ≡ ok tt
            → (run_async inet cfg tcp udp (stop l)).1 ≡ (run_async inet cfg tcp udp new_listener).1)
  unfolding run_async start_listen new_listener
  start_again tcp udp l r =
      rw (stop-rested l (Reach-Held l r))
        (listening-AsNew udp (listen_tcp inet tcp cfg.listen []) true l.bound)
