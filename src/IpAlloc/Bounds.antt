-- ===== src/IpAlloc/Bounds.antt =====
-- The allocator's constructor and the range of its addresses (src/ip_alloc.cpp).
use native.Mathlib.Nat.{div-lt_iff_lt-mul, mul_comm, mul-div_cancel}
use wirebone_cpp.Prelude.{
  ◌⊎◌, sym, ok-injective, Option-cases, ℤ, split_at, ap, Outcome, ℕ, ◌+◌, ◌-◌, ◌*◌, ◌/◌, ◌^◌, ◌≤◌,
  ◌<◌, ◌≡◌, refl, Option, none, some, List, Str, IsByte, All, length, arith, ok, throws, ==_iff,
  Bool-cases, inl, inr, ◌==◌,
}
use wirebone_cpp.Prelude.Table.{table, table_entry}
use wirebone_cpp.Prelude.Chain.{◌>>=◌}
use wirebone_cpp.Prelude.Decimal.{stoi}
use wirebone_cpp.IpAlloc.{
  built, or_invalid, parse_cidr, parse_cidr6, with_prefix, read_cidr, Inet, IpAllocator, masked,
  hosts_of, make,
}

-- The prefix is in range, and the block from the base on lies below 2 ^ 32 and is aligned. The last
-- index is the last address of the block, but for a prefix of 0, which has none.
pub record IsValid (a : IpAllocator) : Type 0 where
  pub prefix_le : a.ipv4_prefix ≤ 32
  pub aligned : a.ipv4_base / 2 ^ (32 - a.ipv4_prefix) * 2 ^ (32 - a.ipv4_prefix) ≡ a.ipv4_base
  pub hosts :
      ((a.ipv4_prefix ≡ 0) × (a.ipv4_hosts ≡ 0))
      ⊎ ((0 < a.ipv4_prefix) × (a.ipv4_hosts + 1 ≡ 2 ^ (32 - a.ipv4_prefix)))
  pub fits : a.ipv4_base + a.ipv4_hosts < 2 ^ 32
  pub base6_length : length a.ipv6_base ≡ 16
  pub base6_bytes : All IsByte a.ipv6_base

-- The last index stays inside the block.
pub IsValid-hosts_lt : (a : IpAllocator) → IsValid a → a.ipv4_hosts < 2 ^ (32 - a.ipv4_prefix)
IsValid-hosts_lt a v = elim v.hosts [
  | inl (z, no_host) ↦ rw (z, no_host) (omega arith)
  | inr (some_left, e) ↦ omega arith
]

pow_split : (p : ℕ) → p ≤ 32 → 2 ^ (32 - p) * 2 ^ p ≡ 2 ^ 32
unfolding table
pow_split p h =
    (==_iff _ _).0 (table_entry (λ n. 2 ^ (32 - n) * 2 ^ n == 2 ^ 32) 33 p (omega arith) refl)

-- Clearing the low bits of an address leaves room for the whole block.
block_fits : (a m q : ℕ) → m * q ≡ 2 ^ 32 → a < 2 ^ 32 → a / m * m + m ≤ 2 ^ 32
block_fits a m q e h =
    let positive : 0 < m = grind arith in
    let below : a / m < q = (div-lt_iff_lt-mul positive).1 (rw (mul_comm q m) (rw e h)) in
    grind (arith, mul_comm m q)

block_aligned : (a m : ℕ) → a / m * m / m * m ≡ a / m * m
block_aligned a m = elim (Bool-cases (m == 0)) [
  | inl z ↦ ground arith
  | inr pos ↦ ap (λ (t : ℕ). t * m) (mul-div_cancel (a / m) (ground arith))
]

module _ {A : Type 0} (pton : Str → Option A) (limit : ℕ) where
  with_prefix_lem :
      (ip : Str) (z : ℤ) (a : A) (prefix : ℕ)
      → with_prefix pton limit ip z ≡ some (a, prefix)
      → (pton ip ≡ some a) × (prefix ≤ limit)
  unfolding with_prefix
  with_prefix_lem ip z a prefix e = ground arith

  Read : A → ℕ → Type 0
  Read a prefix = (ip : Str) × (pton ip ≡ some a) × (prefix ≤ limit)

  stoi_lem :
      (r : Outcome ℤ) (ip : Str) (a : A) (prefix : ℕ)
      → (r >>= λ z. ok (with_prefix pton limit ip z)) ≡ ok (some (a, prefix))
      → Read a prefix
  unfolding Read
  stoi_lem (throws f) ip a prefix e = cc
  stoi_lem (ok z) ip a prefix e =
      let (named, le) = with_prefix_lem ip z a prefix (ok-injective e) in (ip, named, le)

  read_cidr_lem :
      (cidr : Str) (a : A) (prefix : ℕ)
      → read_cidr pton limit cidr ≡ ok (some (a, prefix))
      → Read a prefix
  unfolding read_cidr
  read_cidr_lem cidr a prefix e = elim (Option-cases (split_at b'/' cidr)) [
    | inl missing ↦ cc (rw (missing, read_cidr) at e)
    | inr ((ip, rest), found) ↦ stoi_lem (stoi rest) ip a prefix (rw (found, read_cidr) at e)
  ]

-- Both texts were read, in a run of the constructor that returned.
made :
    {A B C : Type 0} (f : A → B → C) (r : Outcome (Option A)) (t : Outcome (Option B)) (c : C)
    → (r >>= λ o. or_invalid o >>= λ x. t >>= λ q. or_invalid q >>= λ y. ok (f x y)) ≡ ok c
    → (x : A) × (y : B) × (r ≡ ok (some x)) × (t ≡ ok (some y)) × (c ≡ f x y)
made f (throws e) t c h = cc
made f (ok none) t c h = cc
made f (ok (some x)) (throws e) c h = cc
made f (ok (some x)) (ok none) c h = cc
made f (ok (some x)) (ok (some y)) c h = (x, y, refl, refl, sym (ok-injective h))

masked_aligned : (a p : ℕ) → masked a p / 2 ^ (32 - p) * 2 ^ (32 - p) ≡ masked a p
masked_aligned a p = elim (Bool-cases (p == 0)) [
  | inl z ↦ rw z (ground arith)
  | inr n ↦ rw n (block_aligned a (2 ^ (32 - p)))
]

hosts_of_suc : (p : ℕ) → p < 32 → hosts_of (p + 1) + 1 ≡ 2 ^ (32 - (p + 1))
unfolding table
hosts_of_suc p h =
    (==_iff _ _).0
      (table_entry (λ n. hosts_of (n + 1) + 1 == 2 ^ (32 - (n + 1))) 32 p (omega arith) refl)

hosts_of_lem :
    (p : ℕ) → p ≤ 32 → ((p ≡ 0) × (hosts_of p ≡ 0)) ⊎ ((0 < p) × (hosts_of p + 1 ≡ 2 ^ (32 - p)))
hosts_of_lem p h = elim (Bool-cases (p == 0)) [
  | inl z ↦ let here : p ≡ 0 = ground arith in inl (here, rw here refl)
  | inr n ↦
      let up : p - 1 + 1 ≡ p = ground arith in
      inr (ground arith, rw up at (hosts_of_suc (p - 1) (ground arith)))
]

hosts_of_lt : (p : ℕ) → p ≤ 32 → hosts_of p < 2 ^ (32 - p)
hosts_of_lt p h = elim (hosts_of_lem p h) [
  | inl (z, none_left) ↦ rw z (omega arith)
  | inr (some_left, e) ↦ omega arith
]

zero_fits : (p : ℕ) → p ≡ 0 → 0 + hosts_of p < 2 ^ 32
zero_fits p e = rw e (omega arith)

masked_fits : (a p : ℕ) → p ≤ 32 → a < 2 ^ 32 → masked a p + hosts_of p < 2 ^ 32
masked_fits a p h lt = elim (Bool-cases (p == 0)) [
  | inl z ↦ rw z (zero_fits p (ground arith))
  | inr n ↦
      rw n (omega (arith, block_fits a (2 ^ (32 - p)) (2 ^ p) (pow_split p h) lt, hosts_of_lt p h))
]

built-IsValid :
    (c4 c6 : Str) (a4 p4 : ℕ) (a6 : List ℕ) (p6 : ℕ)
    → p4 ≤ 32
    → a4 < 2 ^ 32
    → (length a6 ≡ 16) × All IsByte a6
    → IsValid (built c4 c6 (a4, p4) (a6, p6))
unfolding built
built-IsValid c4 c6 a4 p4 a6 p6 le lt (len, bytes) = record {
  prefix_le = le;
  aligned = masked_aligned a4 p4;
  hosts = hosts_of_lem p4 le;
  fits = masked_fits a4 p4 le lt;
  base6_length = len;
  base6_bytes = bytes;
}

-- An allocator that the constructor makes has an aligned base, a prefix in range, and room below
-- 2 ^ 32 for its whole block, of which every address behind the base has an index, except that a
-- prefix of 0 is accepted and leaves no index at all; its IPv6 base is 16 bytes.
pub make-IsValid :
    (inet : Inet) (cidr4 cidr6 : Str) (a : IpAllocator) → make inet cidr4 cidr6 ≡ ok a → IsValid a
unfolding parse_cidr parse_cidr6 Read
make-IsValid inet cidr4 cidr6 a e = go (made (built cidr4 cidr6) _ _ a (unfold make in e))
  where
    go :
        (x : ℕ × ℕ) × (y : List ℕ × ℕ) × (parse_cidr inet cidr4 ≡ ok (some x))
          × (parse_cidr6 inet cidr6 ≡ ok (some y))
          × (a ≡ built cidr4 cidr6 x y)
        → IsValid a
    go ((a4, p4), (a6, p6), e4, e6, made_by) =
        let (t4, named4, le) = read_cidr_lem inet.pton4 32 cidr4 a4 p4 e4 in
        let (t6, named6, _) = read_cidr_lem inet.pton6 128 cidr6 a6 p6 e6 in
        rw made_by (
          built-IsValid cidr4 cidr6 a4 p4 a6 p6 le (inet.pton4_lt t4 a4 named4)
            (inet.pton6_shape t6 a6 named6))
