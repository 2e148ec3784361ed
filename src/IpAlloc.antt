-- ===== src/IpAlloc.antt =====
-- src/ip_alloc.cpp and src/ip_alloc.hpp: the addresses that the store hands out.
pub mod Bounds
pub mod Unique
use wirebone_cpp.Prelude.{
  ℕ, ◌+◌, ◌-◌, ◌*◌, ◌/◌, ◌%◌, ◌^◌, ◌≤◌, ◌<◌, ◌≡◌, Bool, true, false, ◌||◌, Option, none, some, List,
  [], ◌∷◌, ◌++◌, Str, IsByte, All, length, take, split_at, ltb, leb, ◌==◌, if◌then◌else◌, ltb_ℤ, ℤ,
  pos, negsuc, pos_part, Outcome, ok, throws, Fault, ltb_ℤ,
}
use wirebone_cpp.Prelude.Decimal.{stoi}
use wirebone_cpp.Prelude.Chain.{◌>>=◌}

-- `inet_pton` and `inet_ntop` of the system. An IPv4 address is the number that `ntohl` gives, an
-- IPv6 address its 16 bytes.
pub record Inet : Type 0 where
  pub pton4 : Str → Option ℕ
  pub ntop4 : ℕ → Str
  pub pton6 : Str → Option (List ℕ)
  pub ntop6 : List ℕ → Str
  pub pton4_lt : (s : Str) (a : ℕ) → pton4 s ≡ some a → a < 2 ^ 32
  pub pton4-ntop4 : (a : ℕ) → a < 2 ^ 32 → pton4 (ntop4 a) ≡ some a
  pub pton6_shape :
      (s : Str) (raw : List ℕ) → pton6 s ≡ some raw → (length raw ≡ 16) × All IsByte raw
  pub pton6-ntop6 : (raw : List ℕ) → length raw ≡ 16 → All IsByte raw → pton6 (ntop6 raw) ≡ some raw

pub record IpAllocator : Type 0 where
  pub ipv4_cidr : Str
  pub ipv6_cidr : Str
  pub ipv4_base : ℕ
  pub ipv4_prefix : ℕ
  pub ipv4_hosts : ℕ
  pub ipv6_base : List ℕ
  pub ipv6_prefix : ℕ

-- The tests on the prefix length, and the address in front of it; `none` is the result `false`.
with_prefix : {A : Type 0} → (Str → Option A) → ℕ → Str → ℤ → Option (A × ℕ)
with_prefix pton limit ip prefix =
    if ltb_ℤ prefix (pos 0) || ltb_ℤ (pos limit) prefix
    then none
    else elim (pton ip) [ none ↦ none | some a ↦ some (a, pos_part prefix) ]

-- `std::stoi` may throw.
read_cidr : {A : Type 0} → (Str → Option A) → ℕ → Str → Outcome (Option (A × ℕ))
read_cidr pton limit cidr = elim (split_at b'/' cidr) [
  | none ↦ ok none
  | some (ip, rest) ↦ do prefix ← stoi rest; ok (with_prefix pton limit ip prefix)
]

module _ (inet : Inet) where
  pub parse_cidr : Str → Outcome (Option (ℕ × ℕ))
  unfolding read_cidr with_prefix
  parse_cidr = read_cidr inet.pton4 32

  pub parse_cidr6 : Str → Outcome (Option (List ℕ × ℕ))
  unfolding read_cidr with_prefix
  parse_cidr6 = read_cidr inet.pton6 128

-- `~0u << (32 - prefix)` keeps the multiples of 2 ^ (32 - prefix).
abbrev pub masked : ℕ → ℕ → ℕ
masked addr prefix = if prefix == 0 then 0 else addr / 2 ^ (32 - prefix) * 2 ^ (32 - prefix)

-- `1u << 32`, which a prefix of 0 asks for, is undefined in C++; here the count is
-- taken modulo 32, as x86 does, which gives 1, and so no host.
abbrev pub hosts_of : ℕ → ℕ
hosts_of prefix = if leb 32 prefix then 0 else 2 ^ ((32 - prefix) % 32) - 1

abbrev pub or_invalid {ℓ} : {A : Type ℓ} → Option A → Outcome A
or_invalid none = throws Fault.runtime_error
or_invalid (some a) = ok a

built : Str → Str → ℕ × ℕ → List ℕ × ℕ → IpAllocator
built ipv4_cidr ipv6_cidr (a4, prefix4) (a6, prefix6) = record {
  ipv4_cidr = ipv4_cidr;
  ipv6_cidr = ipv6_cidr;
  ipv4_base = masked a4 prefix4;
  ipv4_prefix = prefix4;
  ipv4_hosts = hosts_of prefix4;
  ipv6_base = a6;
  ipv6_prefix = prefix6;
}

-- The constructor.
unfoldable pub make : Inet → Str → Str → Outcome IpAllocator
unfolding built parse_cidr parse_cidr6
make inet ipv4_cidr ipv6_cidr = do
  found4 ← parse_cidr inet ipv4_cidr
  four ← or_invalid found4
  found6 ← parse_cidr6 inet ipv6_cidr
  six ← or_invalid found6
  ok (built ipv4_cidr ipv6_cidr four six)

-- The last four bytes of the IPv6 address.
abbrev pub index_bytes : ℕ → List ℕ
index_bytes index =
    (index / 2 ^ 24 % 256) ∷ (index / 2 ^ 16 % 256) ∷ (index / 2 ^ 8 % 256) ∷ (index % 256) ∷ []

unfoldable pub address_for : Inet → IpAllocator → ℕ → Outcome (Str × Str)
address_for inet a index =
    if index == 0 || ltb a.ipv4_hosts index
    then throws Fault.runtime_error
    else ok (
      inet.ntop4 ((a.ipv4_base + index) % 2 ^ 32),
      inet.ntop6 (take 12 a.ipv6_base ++ index_bytes index),
    )
