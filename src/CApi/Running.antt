-- ===== src/CApi/Running.antt =====
-- src/c_api.cpp: the calls that start and stop a coordinator, and what they show of it.
use wirebone_cpp.Prelude.{ℕ, Bool, ℤ, pos, negsuc, Option, none, some, Str, Outcome}
use wirebone_cpp.IpAlloc.{Inet}
use wirebone_cpp.Crypto.Primitives.{Primitives}
use wirebone_cpp.Socket.Opening.{Answers}
use wirebone_cpp.Coordinator.Connection.{noise_public_text}
use wirebone_cpp.Coordinator.Control.{Impl}
use wirebone_cpp.Coordinator.Lifecycle.{Listener, run_async, stop}
use wirebone_cpp.CApi.{status, c_bool, dup_str}

-- `wirebone_coordinator`, whose state is in Impl and in what it holds of the system.
pub record WireboneCoordinator : Type 0 where
  pub impl : Impl
  pub listener : Listener

abbrev left : WireboneCoordinator → Outcome (Unit {0}) × Listener → ℤ × Option WireboneCoordinator
left c (r, l) = (status r, some (record c { listener = l }))

unfoldable pub wirebone_start :
    Inet → Answers → Answers → Option WireboneCoordinator → ℤ × Option WireboneCoordinator
wirebone_start inet tcp udp none = (negsuc 0, none)
wirebone_start inet tcp udp (some c) = left c (run_async inet c.impl.cfg tcp udp c.listener)

unfoldable pub wirebone_stop : Option WireboneCoordinator → Option WireboneCoordinator
wirebone_stop none = none
wirebone_stop (some c) = some (record c { listener = stop c.listener })

unfoldable pub wirebone_running : Option WireboneCoordinator → ℤ
wirebone_running none = pos 0
wirebone_running (some c) = c_bool c.listener.running

module _ (malloc : ℕ → Bool) where
  unfoldable pub wirebone_bound_address : Option WireboneCoordinator → Option Str
  wirebone_bound_address none = none
  wirebone_bound_address (some c) = dup_str malloc c.listener.bound

  unfoldable pub wirebone_noise_public_key : Primitives → Option WireboneCoordinator → Option Str
  wirebone_noise_public_key p none = none
  wirebone_noise_public_key p (some c) =
      dup_str malloc (noise_public_text p c.impl.store.noise_private)
