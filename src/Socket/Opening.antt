-- ===== src/Socket/Opening.antt =====
-- What the system answers to the calls that open a listening socket, as listen_tcp of
-- src/coordinator.cpp and MagicDns::start of src/dns.cpp make them; the descriptors that are open;
-- and `std::thread`.
use wirebone_cpp.Prelude.{
  ℕ, ◌≡◌, arith, Bool, Option, none, some, List, [], ◌∷◌, Outcome, ◌==◌, if◌then◌else◌,
}

-- The descriptor that `socket` gives, `none` where it fails; whether `bind` takes an address and a
-- port; whether `listen` works; and what `getsockname` finds.
pub record Answers : Type 0 where
  pub fd : Option ℕ
  pub binds : ℕ → ℕ → Bool
  pub listens : Bool
  pub address : ℕ
  pub port : ℕ

-- A call that opens and closes descriptors.
abbrev pub Calls : Type 0 → Type 0
Calls A = List ℕ → Outcome A × List ℕ

-- `close`
abbrev pub close_fd : ℕ → List ℕ → List ℕ
close_fd fd [] = []
close_fd fd (x ∷ xs) = if x == fd then xs else x ∷ close_fd fd xs

abbrev pub close_held : Option ℕ → List ℕ → List ℕ
close_held none opened = opened
close_held (some fd) opened = close_fd fd opened

-- A `std::thread`: one that was assigned over a joinable one ends the program.
pub data Thread : Type 0 where
  idle joinable overwritten : Thread

unfoldable pub assign : Thread → Thread
assign idle = joinable
assign joinable = overwritten
assign overwritten = overwritten

-- `if (t.joinable()) t.join()`
unfoldable pub join : Thread → Thread
join idle = idle
join joinable = idle
join overwritten = overwritten

pub close_fd-same : (fd : ℕ) (xs : List ℕ) → close_fd fd (fd ∷ xs) ≡ xs
close_fd-same fd xs = ground arith
