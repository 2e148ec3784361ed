-- ===== src/Coordinator/Listen.antt =====
-- src/coordinator.cpp: parse_hostport and listen_tcp.
pub mod Texts
use wirebone_cpp.Prelude.{
  ℕ, ◌%◌, ◌^◌, not, ◌||◌, Option, none, some, [], ◌∷◌, ◌++◌, Str, codes, is_empty, to_u32, Outcome,
  ok, throws, Fault, ◌==◌, if◌then◌else◌,
}
use wirebone_cpp.Prelude.Decimal.{stoi, to_string}
use wirebone_cpp.Prelude.Chain.{◌>>=◌}
use wirebone_cpp.IpAlloc.{Inet}
use wirebone_cpp.Socket.Opening.{Answers, Calls, close_fd}

-- `rfind` with both `substr`s.
unfoldable pub split_last : ℕ → Str → Option (Str × Str)
split_last c [] = none
split_last c (x ∷ xs) = elim (split_last c xs) [
  | some (a, b) ↦ some (x ∷ a, b)
  | none ↦ if x == c then some ([], xs) else none
]

-- A port is a `uint16_t`.
unfoldable pub read_port : Str → Outcome ℕ
read_port text = do n ← stoi text; ok (to_u32 n % 2 ^ 16)

-- Host and port.
unfoldable pub parse_hostport : Str → Outcome (Str × ℕ)
parse_hostport s = elim (split_last b':' s) [
  | none ↦ (read_port s >>= λ port. ok (codes "0.0.0.0", port))
  | some (host, text) ↦
      (read_port text >>= λ port. ok (if is_empty host then codes "0.0.0.0" else host, port))
]

module _ (inet : Inet) where
  -- The address to bind to; a host that is no IPv4 address stands for any.
  unfoldable pub listen_address : Str → Outcome (ℕ × ℕ)
  listen_address spec = do
    (host, port) ← parse_hostport spec
    elim (inet.pton4 host) [ none ↦ ok (0, port) | some a ↦ ok (a, port) ]

  -- The text of the address that is bound.
  unfoldable pub bound_text : ℕ → ℕ → Str
  bound_text address port = inet.ntop4 address ++ (codes ":" ++ to_string port)

  -- From `socket` on.
  unfoldable pub open_socket : Answers → Option ℕ → ℕ × ℕ → Calls (ℕ × Str)
  open_socket sys none at opened = (throws Fault.runtime_error, opened)
  open_socket sys (some fd) (address, port) opened =
      if not (sys.binds address port) || not sys.listens
      then (throws Fault.runtime_error, close_fd fd (fd ∷ opened))
      else (ok (fd, bound_text sys.address sys.port), fd ∷ opened)

  -- The descriptor, and the text of its address.
  unfoldable pub listen_tcp : Answers → Str → Calls (ℕ × Str)
  listen_tcp sys spec opened = elim (listen_address spec) [
    | throws e ↦ (throws e, opened)
    | ok at ↦ open_socket sys sys.fd at opened
  ]
