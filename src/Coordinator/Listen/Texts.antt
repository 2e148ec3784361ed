-- ===== src/Coordinator/Listen/Texts.antt =====
-- The texts of addresses to listen on (src/coordinator.cpp).
use wirebone_cpp.Prelude.{
  ℕ, ◌<◌, ◌%◌, ◌^◌, ◌≡◌, refl, ap, arith, false, none, some, [], ◌∷◌, ◌++◌, Str, codes, is_empty,
  ok, ◌==◌, if◌then◌else◌,
}
use wirebone_cpp.Prelude.Decimal.{to_string, stoi-to_string, IsDigits, to_string-IsDigits}
use wirebone_cpp.IpAlloc.{Inet}
use wirebone_cpp.Coordinator.Listen.{
  split_last, read_port, parse_hostport, listen_address, bound_text,
}

digits-split_last : (s : Str) → IsDigits s → split_last b':' s ≡ none
unfolding split_last IsDigits
digits-split_last [] h = refl
digits-split_last (c ∷ s) (d, h) =
    let other : (c == b':') ≡ false = ground arith in rw (digits-split_last s h, other)

-- The last colon splits the text, whatever stands before it.
split_last-append :
    (host s : Str) → IsDigits s → split_last b':' (host ++ b':' ∷ s) ≡ some (host, s)
unfolding split_last
split_last-append [] s h = rw (digits-split_last s h)
split_last-append (c ∷ host) s h = rw (split_last-append host s h)

read_port-to_string : (port : ℕ) → port < 2 ^ 31 → read_port (to_string port) ≡ ok (port % 2 ^ 16)
unfolding read_port
read_port-to_string port h = rw (stoi-to_string port h) (ap (λ (n : ℕ). ok n) (omega arith))

-- Any text before the last colon is the host, of which an empty one stands for every address; and the
-- number behind it, where it fits an int, is the port modulo 2 ^ 16: one that is no port is not
-- refused.
pub parse_hostport_text :
    (host : Str) (port : ℕ)
    → port < 2 ^ 31
    → parse_hostport (host ++ b':' ∷ to_string port)
      ≡ ok (if is_empty host then codes "0.0.0.0" else host, port % 2 ^ 16)
unfolding parse_hostport
parse_hostport_text host port h = rw (
  split_last-append host (to_string port) (to_string-IsDigits port (omega arith)),
  read_port-to_string port h,
  parse_hostport,
)

-- Where inet_ntop gives a text that is not empty, the text of a bound address and port is one to listen on: it is read back as
-- that address and port.
pub listen_address-bound_text :
    (inet : Inet) (address port : ℕ)
    → address < 2 ^ 32
    → port < 2 ^ 16
    → is_empty (inet.ntop4 address) ≡ false
    → listen_address inet (bound_text inet address port) ≡ ok (address, port)
unfolding listen_address bound_text
listen_address-bound_text inet address port ha hp some_text =
    rw
      (
        parse_hostport_text (inet.ntop4 address) port (omega arith),
        some_text,
        inet.pton4-ntop4 address ha,
      )
      (ap (λ (n : ℕ). ok (address, n)) (omega arith))
