-- ===== src/Tests/Lifecycle.antt =====
-- A coordinator that is started and stopped.
use wirebone_cpp.Prelude.{
  ◌≡◌, refl, true, false, some, none, [], ◌∷◌, ◌++◌, ok, throws, Fault, arith, inr,
}
use wirebone_cpp.Socket.Opening.{Answers}
use wirebone_cpp.Coordinator.Control.{default_config}
use wirebone_cpp.Coordinator.Listen.{listen_address, bound_text}
use wirebone_cpp.Coordinator.Listen.Texts.{listen_address-bound_text}
use wirebone_cpp.Coordinator.Lifecycle.{Listener, new_listener, run_async, stop, accept_loop}
use wirebone_cpp.Coordinator.Lifecycle.Accepting.{accept_loop_lem}
use wirebone_cpp.Coordinator.Lifecycle.Held.{Held}
use wirebone_cpp.Coordinator.Lifecycle.Starts.{
  Reach, begins, starts, stops, Reach-Held, start_twice, start_again,
}
use wirebone_cpp.Samples.{sample_inet}

abbrev tcp : Answers
tcp = record { fd = some 3; binds = λ a p. true; listens = true; address = 7; port = 8080 }

abbrev udp : Answers
udp = record tcp { fd = some 4; port = 5353 }

-- The port is taken.
abbrev taken : Answers
taken = record tcp { binds = λ a p. false }

abbrev started : Listener
started = (run_async sample_inet default_config tcp udp new_listener).1

failed :
    Reach sample_inet default_config (run_async sample_inet default_config tcp taken new_listener).1
failed = starts tcp taken begins

Reach-Held_example :
    Held
      (run_async sample_inet default_config tcp udp
        (stop (run_async sample_inet default_config tcp taken new_listener).1)).1
Reach-Held_example = Reach-Held sample_inet default_config _ (starts tcp udp (stops failed))

start_twice_example :
    ((run_async sample_inet default_config taken udp new_listener).1.running ≡ true)
    × (run_async sample_inet default_config tcp udp
          (run_async sample_inet default_config taken udp new_listener).1
        ≡ (
          throws Fault.runtime_error,
          (run_async sample_inet default_config taken udp new_listener).1,
        ))
start_twice_example = start_twice sample_inet default_config taken udp tcp udp new_listener

start_again_example :
    ((run_async sample_inet default_config tcp udp (stop started)).0
      ≡ (run_async sample_inet default_config tcp udp new_listener).0)
    × ((run_async sample_inet default_config tcp udp new_listener).0 ≡ ok tt
        → (run_async sample_inet default_config tcp udp (stop started)).1
          ≡ (run_async sample_inet default_config tcp udp new_listener).1)
start_again_example = start_again sample_inet default_config tcp udp started (starts tcp udp begins)

listen_address-bound_text_example :
    listen_address sample_inet (bound_text sample_inet 2130706433 8080) ≡ ok (2130706433, 8080)
listen_address-bound_text_example =
    listen_address-bound_text sample_inet 2130706433 8080 (omega arith) (omega arith) refl

-- A connection, a failure of `accept`, and the round that the stop ends.
accept_loop_lem_example :
    accept_loop (
      (record { stop_before = false; accepted = some 9; stop_after = false }
        ∷ record { stop_before = false; accepted = none; stop_after = false }
        ∷ [])
      ++ record { stop_before = false; accepted = none; stop_after = true }
        ∷ record { stop_before = false; accepted = some 10; stop_after = false }
        ∷ [])
    ≡ (9 ∷ [], true)
accept_loop_lem_example =
    accept_loop_lem
      (record { stop_before = false; accepted = some 9; stop_after = false }
        ∷ record { stop_before = false; accepted = none; stop_after = false }
        ∷ [])
      (record { stop_before = false; accepted = none; stop_after = true })
      (record { stop_before = false; accepted = some 10; stop_after = false } ∷ [])
      ((refl, refl), ((refl, refl), tt)) (inr (refl, refl))
