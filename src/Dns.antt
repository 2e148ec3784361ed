-- ===== src/Dns.antt =====
-- src/dns.cpp: MagicDNS, which answers for the nodes of the registry. Service has its socket.
pub mod Names
pub mod Bounds
pub mod Lookup
pub mod Questions
pub mod Replies
pub mod Service
use wirebone_cpp.Prelude.{
  ℕ, zero, suc, ◌+◌, ◌-◌, ◌*◌, ◌/◌, ◌%◌, ◌^◌, Bool, true, false, not, ◌&&◌, ◌||◌, Option, none,
  some, List, [], ◌∷◌, ◌++◌, Str, codes, lower, is_empty, str_eq, length, take, drop, get_or, ltb,
  leb, ◌==◌, if◌then◌else◌,
}
use wirebone_cpp.IpAlloc.{Inet}
use wirebone_cpp.Store.Types.{NodeState}

abbrev pub put16 : ℕ → List ℕ
put16 v = (v / 2 ^ 8 % 256) ∷ (v % 256) ∷ []

abbrev pub put32 : ℕ → List ℕ
put32 v = (v / 2 ^ 24 % 256) ∷ (v / 2 ^ 16 % 256) ∷ (v / 2 ^ 8 % 256) ∷ (v % 256) ∷ []

-- `name.pop_back()` where the name ends in a dot.
unfoldable pub without_dot : Str → Str
without_dot [] = []
without_dot (c ∷ []) = if c == b'.' then [] else c ∷ []
without_dot (c ∷ d ∷ s) = c ∷ without_dot (d ∷ s)

-- Where the loop of parse_qname stands; `after` is `end`, where the name ends in the packet.
pub record Place : Type 0 where
  pub off : ℕ
  pub name : Str
  pub jumped : Bool
  pub after : ℕ

-- The offset behind the name once its last byte was read.
abbrev pub finished : Place → ℕ × Str
finished c = (if c.jumped then c.after else c.off + 1, without_dot c.name)

abbrev pub jump : List ℕ → Place → Place
jump msg c = record {
  off = get_or msg c.off 0 % 64 * 256 + get_or msg (c.off + 1) 0;
  name = c.name;
  jumped = true;
  after = if c.jumped then c.after else c.off + 2;
}

abbrev pub with_label : List ℕ → Place → Place
with_label msg c = record c {
  off = c.off + 1 + get_or msg c.off 0;
  name = c.name ++ (take (get_or msg c.off 0) (drop (c.off + 1) msg) ++ b'.' ∷ []);
}

-- The loop of parse_qname, with the rounds that `hops` leaves. A byte from 192 on is a pointer.
unfoldable pub parse_loop : ℕ → List ℕ → Place → Option (ℕ × Str)
parse_loop zero msg c = none
parse_loop (suc rounds) msg c =
    let label = get_or msg c.off 0 in
    let jumps = parse_loop rounds msg (jump msg c) in
    let goes_on = parse_loop rounds msg (with_label msg c) in
    if leb (length msg) c.off
    then none
    else if label == 0
    then some (finished c)
    else if leb 192 label
    then (if leb (length msg) (c.off + 1) then none else jumps)
    else if ltb (length msg) (c.off + 1 + label)
    then none
    else goes_on

-- The offset behind the name and the name; `none` is `false`.
unfoldable pub parse_qname : List ℕ → ℕ → Option (ℕ × Str)
parse_qname msg off =
    parse_loop 16 msg (record { off = off; name = []; jumped = false; after = off })

-- The names by which a node is asked for.
unfoldable pub names_node : Str → Str → NodeState → Bool
names_node want domain n =
    let host = lower (if is_empty n.hostname then codes "node-" ++ n.stable_id else n.hostname) in
    let fqdn = host ++ (b'.' ∷ domain) in
    str_eq want host || (str_eq want fqdn || str_eq want (fqdn ++ b'.' ∷ []))

unfoldable pub find_named : Str → Str → List NodeState → Option NodeState
find_named want domain [] = none
find_named want domain (n ∷ ns) =
    if names_node want domain n then some n else find_named want domain ns

-- `add_rr`: a record for the name at offset 12.
abbrev pub add_rr : ℕ → List ℕ → List ℕ
add_rr type value =
    0xc0 ∷ 0x0c ∷ (put16 type ++ (put16 1 ++ (put32 30 ++ (put16 (length value) ++ value))))

-- The four bytes of an `in_addr`.
abbrev pub network_order : ℕ → List ℕ
network_order = put32

module _ (inet : Inet) where
  open inet use {pton4, pton6}

  unfoldable pub a_records : ℕ → NodeState → List (List ℕ)
  a_records qtype n =
      if (qtype == 1 || qtype == 255) && not (is_empty n.ipv4)
      then (elim (pton4 n.ipv4) [ none ↦ [] | some a ↦ add_rr 1 (network_order a) ∷ [] ])
      else []

  unfoldable pub aaaa_records : ℕ → NodeState → List (List ℕ)
  aaaa_records qtype n =
      if (qtype == 28 || qtype == 255) && not (is_empty n.ipv6)
      then (elim (pton6 n.ipv6) [ none ↦ [] | some raw ↦ add_rr 28 raw ∷ [] ])
      else []

  abbrev pub all_bytes : List (List ℕ) → List ℕ
  all_bytes [] = []
  all_bytes (r ∷ rs) = r ++ all_bytes rs

  -- The first twelve bytes of a reply.
  abbrev pub header : List ℕ → ℕ → ℕ → List ℕ
  header q code answers =
      get_or q 0 0
      ∷ get_or q 1 0
      ∷ 0x81
      ∷ code
      ∷ get_or q 4 0
      ∷ get_or q 5 0
      ∷ (answers / 2 ^ 8 % 256)
      ∷ (answers % 256)
      ∷ 0
      ∷ 0
      ∷ 0
      ∷ 0
      ∷ []

  -- The reply to a question of that type, `asked` its bytes.
  abbrev pub reply : List ℕ → List ℕ → ℕ → Option NodeState → List ℕ
  reply q asked qtype none = header q 0x83 0 ++ asked
  reply q asked qtype (some n) =
      let records = a_records qtype n ++ aaaa_records qtype n in
      header q 0x80 (length records) ++ (asked ++ all_bytes records)

  -- What follows the name of the question.
  unfoldable pub answer_name : List ℕ → Str → List NodeState → ℕ × Str → Option (List ℕ)
  answer_name q domain nodes (off, qname) =
      if ltb (length q) (off + 4)
      then none
      else some (
          reply q (take (off + 4 - 12) (drop 12 q)) (get_or q off 0 * 256 + get_or q (off + 1) 0)
            (find_named (lower qname) (lower domain) nodes))

  -- The reply to a packet, `none` where there is none.
  unfoldable pub answer : List ℕ → Str → List NodeState → Option (List ℕ)
  answer q domain nodes =
      if ltb (length q) 12
      then none
      else if leb 128 (get_or q 2 0)
      then none
      else if ltb (get_or q 4 0 * 256 + get_or q 5 0) 1
      then none
      else elim (parse_qname q 12) [ none ↦ none | some found ↦ answer_name q domain nodes found ]

  -- A round of the loop of MagicDns, on a packet that was received, of which the buffer takes 2048
  -- bytes: what is sent back.
  unfoldable pub on_packet : List ℕ → Str → List NodeState → Option (List ℕ)
  on_packet q domain nodes = if is_empty q then none else elim (answer (take 2048 q) domain nodes) [
    | none ↦ none
    | some resp ↦ if is_empty resp then none else some resp
  ]
