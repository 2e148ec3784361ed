-- ===== src/Dns/Service.antt =====
-- The life of MagicDns (src/dns.cpp): its constructor, start, stop and loop. The answers of the system
-- are arguments.
use wirebone_cpp.Prelude.{
  ℕ, Bool, true, false, not, Option, none, some, List, [], ◌∷◌, Str, codes, is_empty, Outcome, ok,
  throws, Fault, if◌then◌else◌,
}
use wirebone_cpp.Prelude.Chain.{◌>>=◌}
use wirebone_cpp.IpAlloc.{Inet}
use wirebone_cpp.Store.Types.{NodeState}
use wirebone_cpp.Socket.Opening.{Answers, close_fd, close_held, Thread, idle, assign, join}
use wirebone_cpp.Coordinator.Listen.{split_last, read_port, bound_text}
use wirebone_cpp.Dns.{on_packet}

pub record MagicDns : Type 0 where
  pub domain : Str
  pub listen : Str
  pub bound : Str
  pub fd : Option ℕ
  pub stopped : Bool
  pub thread : Thread

unfoldable pub new_dns : Str → Str → MagicDns
new_dns domain listen = record {
  domain = domain;
  listen = listen;
  bound = [];
  fd = none;
  stopped = false;
  thread = idle;
}

-- Its own copy of the function of src/coordinator.cpp.
unfoldable pub parse_hostport : Str → Outcome (Str × ℕ)
parse_hostport s = elim (split_last b':' s) [
  | none ↦ (read_port s >>= λ port. ok (codes "0.0.0.0", port))
  | some (host, text) ↦ do
    port ← read_port text
    ok (if is_empty host then codes "0.0.0.0" else host, port)
]

-- What a call leaves: the object and the descriptors that are open.
abbrev pub Left : Type 0
Left = MagicDns × List ℕ

module _ (inet : Inet) (sys : Answers) where
  -- From `socket` on, for a host and a port.
  unfoldable pub open_socket : Option ℕ → ℕ → ℕ → Left → Outcome (Unit {0}) × Left
  open_socket none address port (d, opened) =
      (throws Fault.runtime_error, (record d { fd = none }, opened))
  open_socket (some fd) address port (d, opened) =
      if not (sys.binds address port)
      then (throws Fault.runtime_error, (record d { fd = none }, close_fd fd (fd ∷ opened)))
      else (
        ok tt,
        (
          record d {
            fd = some fd;
            bound = bound_text inet sys.address sys.port;
            stopped = false;
            thread = assign d.thread;
          },
          fd ∷ opened,
        ),
      )

  abbrev pub start_at : Outcome (Str × ℕ) → Left → Outcome (Unit {0}) × Left
  start_at (throws e) l = (throws e, l)
  start_at (ok (host, port)) l = elim (inet.pton4 host) [
    | none ↦ open_socket sys.fd 0 port l
    | some a ↦ open_socket sys.fd a port l
  ]

  unfoldable pub start : Left → Outcome (Unit {0}) × Left
  start (d, opened) =
      if is_empty d.listen
      then (ok tt, (d, opened))
      else start_at (parse_hostport d.listen) (d, opened)

unfoldable pub stop : Left → Left
stop (d, opened) =
    (record d { stopped = true; fd = none; thread = join d.thread }, close_held d.fd opened)

-- A round of the loop: whether `stop_` is set when it begins and when `recvfrom` has failed; the
-- packet, `none` for a failure; and the registry.
pub record Turn : Type 0 where
  pub stop_before : Bool
  pub packet : Option (List ℕ)
  pub stop_after : Bool
  pub nodes : List NodeState

-- The replies that are sent, and whether the loop has ended.
unfoldable pub loop : Inet → Str → List Turn → List (List ℕ) × Bool
loop inet domain [] = ([], false)
loop inet domain (t ∷ ts) =
    let (sent, ended) = loop inet domain ts in
    if t.stop_before then ([], true) else elim t.packet [
      | none ↦ if t.stop_after then ([], true) else (sent, ended)
      | some q ↦
          if is_empty q
          then (if t.stop_after then ([], true) else (sent, ended))
          else (elim (on_packet inet q domain t.nodes) [
            | none ↦ (sent, ended)
            | some resp ↦ (resp ∷ sent, ended)
          ])
    ]
