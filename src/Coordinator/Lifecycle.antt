-- ===== src/Coordinator/Lifecycle.antt =====
-- The life of a coordinator (src/coordinator.cpp): run, run_async, stop, start_listen and accept_loop of
-- Impl, with its listening socket, its thread and its MagicDns. The answers of the system are arguments.
pub mod Held
pub mod Starts
pub mod Accepting
use wirebone_cpp.Prelude.{
  ℕ, Bool, true, false, Option, none, some, List, [], ◌∷◌, Str, is_empty, Outcome, ok, throws,
  Fault, if◌then◌else◌,
}
use wirebone_cpp.IpAlloc.{Inet}
use wirebone_cpp.Socket.Opening.{Answers, close_held, Thread, idle, assign, join}
use wirebone_cpp.Dns.Service.{MagicDns, new_dns, start, Left}
use wirebone_cpp.Dns.Service
use wirebone_cpp.Coordinator.Listen.{listen_tcp}
use wirebone_cpp.Coordinator.Control.{Config}

-- The members of Impl for this, and the descriptors that are open.
pub record Listener : Type 0 where
  pub listen_fd : Option ℕ
  pub running : Bool
  pub stopped : Bool
  pub bound : Str
  pub accept_thread : Thread
  pub dns : Option MagicDns
  pub opened : List ℕ

unfoldable pub new_listener : Listener
new_listener = record {
  listen_fd = none;
  running = false;
  stopped = false;
  bound = [];
  accept_thread = idle;
  dns = none;
  opened = [];
}

abbrev pub kept : Option MagicDns → Left → Listener → Listener
kept dns (d, opened) l = record l { dns = dns; opened = opened }

-- `dns_.reset()`, whose destructor stops it.
unfoldable pub reset_dns : Listener → Listener
reset_dns l = elim l.dns [ none ↦ l | some d ↦ kept none (Service.stop (d, l.opened)) l ]

unfoldable pub stop : Listener → Listener
stop l =
    let closed =
      reset_dns
        (record l { stopped = true; listen_fd = none; opened = close_held l.listen_fd l.opened }) in
    record closed { accept_thread = join closed.accept_thread; running = false }

module _ (inet : Inet) (cfg : Config) where
  -- A call of MagicDns, which stays where it throws.
  abbrev pub dns_started : Outcome (Unit {0}) × Left → Listener → Outcome (Unit {0}) × Listener
  dns_started (r, (d, opened)) l = (r, record l { dns = some d; opened = opened })

  unfoldable pub start_dns : Answers → Listener → Outcome (Unit {0}) × Listener
  start_dns udp l =
      let fresh = reset_dns l in
      if is_empty cfg.dns_listen
      then (ok tt, l)
      else dns_started (start inet udp (new_dns cfg.domain cfg.dns_listen, fresh.opened)) fresh

  abbrev pub listening :
      Answers → Outcome (ℕ × Str) × List ℕ → Listener → Outcome (Unit {0}) × Listener
  listening udp (throws e, opened) l = (throws e, record l { opened = opened })
  listening udp (ok (fd, bound), opened) l =
      start_dns udp (record l { listen_fd = some fd; bound = bound; opened = opened })

  unfoldable pub start_listen : Answers → Answers → Listener → Outcome (Unit {0}) × Listener
  start_listen tcp udp l =
      if l.running
      then (throws Fault.runtime_error, l)
      else listening udp (listen_tcp inet tcp cfg.listen l.opened)
          (record l { running = true; stopped = false })

  abbrev pub with_thread : Outcome (Unit {0}) × Listener → Outcome (Unit {0}) × Listener
  with_thread (throws e, l) = (throws e, l)
  with_thread (ok u, l) = (ok u, record l { accept_thread = assign l.accept_thread })

  unfoldable pub run_async : Answers → Answers → Listener → Outcome (Unit {0}) × Listener
  run_async tcp udp l = with_thread (start_listen tcp udp l)

-- A round of the accept loop: whether `stop_` is set when it begins and when `accept` has failed, and
-- what `accept` gives, `none` for a failure.
pub record Turn : Type 0 where
  pub stop_before : Bool
  pub accepted : Option ℕ
  pub stop_after : Bool

-- The descriptors for which a client thread is started, and whether the loop has ended.
unfoldable pub accept_loop : List Turn → List ℕ × Bool
accept_loop [] = ([], false)
accept_loop (t ∷ ts) =
    let (clients, ended) = accept_loop ts in
    if t.stop_before then ([], true) else elim t.accepted [
      | none ↦ if t.stop_after then ([], true) else (clients, ended)
      | some fd ↦ (fd ∷ clients, ended)
    ]

-- `run`: the outcome where the loop is reached, the descriptors that it takes and whether it has ended.
abbrev pub served : List Turn → Outcome (Unit {0}) × Listener → Outcome (List ℕ × Bool) × Listener
served turns (throws e, l) = (throws e, l)
served turns (ok u, l) = (ok (accept_loop turns), l)

unfoldable pub run :
    Inet → Config → Answers → Answers → List Turn → Listener → Outcome (List ℕ × Bool) × Listener
run inet cfg tcp udp turns l = served turns (start_listen inet cfg tcp udp l)
