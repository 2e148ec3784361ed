-- ===== src/IpAlloc/Unique.antt =====
-- `address_for` (src/ip_alloc.cpp): the addresses lie in the block and differ from one another.
use native.Mathlib.Nat.{div-eq_of_lt-le}
use wirebone_cpp.Prelude.{
  get_or, ℕ, ◌+◌, ◌-◌, ◌*◌, ◌/◌, ◌%◌, ◌^◌, ◌≤◌, ◌<◌, ◌≡◌, some, List, ◌++◌, Str, IsByte, All,
  All-append, All-take, length, take, arith, ok, throws, Fault, inl, inr, ◌⊎◌, ◌↔◌, sym, ap, ◌∙◌,
  length-append, length-take, drop, drop-append,
}
use wirebone_cpp.IpAlloc.{Inet, IpAllocator, address_for, index_bytes}
use wirebone_cpp.IpAlloc.Bounds.{IsValid-hosts_lt, IsValid}

block_of : (b m i : ℕ) → b / m * m ≡ b → i < m → (b + i) / m * m ≡ b
block_of b m i e h =
    let q : (b + i) / m ≡ b / m = div-eq_of_lt-le m (omega (arith, e)) (grind (arith, e)) in rw q e

index_bytes-injective : (i j : ℕ) → i < 2 ^ 32 → j < 2 ^ 32 → index_bytes i ≡ index_bytes j → i ≡ j
index_bytes-injective i j hi hj e = omega (
  arith,
  ap (λ (t : List ℕ). get_or t 0 0) e,
  ap (λ (t : List ℕ). get_or t 1 0) e,
  ap (λ (t : List ℕ). get_or t 2 0) e,
  ap (λ (t : List ℕ). get_or t 3 0) e,
)

ntop4-injective :
    (inet : Inet) (x y : ℕ) → x < 2 ^ 32 → y < 2 ^ 32 → inet.ntop4 x ≡ inet.ntop4 y → x ≡ y
ntop4-injective inet x y hx hy e = cc (inet.pton4-ntop4 x hx, inet.pton4-ntop4 y hy)

module _ (inet : Inet) (a : IpAllocator) where
  -- The two addresses behind the texts.
  abbrev pub address4 : ℕ → ℕ
  address4 index = (a.ipv4_base + index) % 2 ^ 32

  abbrev pub address6 : ℕ → List ℕ
  address6 index = take 12 a.ipv6_base ++ index_bytes index

  abbrev Result : ℕ → Str → Str → Type 0
  Result index v4 v6 =
      (0 < index)
      × (index ≤ a.ipv4_hosts)
      × (v4 ≡ inet.ntop4 (address4 index))
      × (v6 ≡ inet.ntop6 (address6 index))

  pub address_for_lem :
      (index : ℕ) (v4 v6 : Str) → address_for inet a index ≡ ok (v4, v6) → Result index v4 v6
  unfolding address_for
  address_for_lem index v4 v6 e = ground arith

  -- `address_for` throws exactly at index 0 and past the last host.
  pub address_for_throws :
      (index : ℕ)
      → (address_for inet a index ≡ throws Fault.runtime_error)
        ↔ ((index ≡ 0) ⊎ (a.ipv4_hosts < index))
  unfolding address_for
  address_for_throws index = (λ e. ground arith, λ s. ground arith)

  module _ (valid : IsValid a) where
    address6_shape : (index : ℕ) → (length (address6 index) ≡ 16) × All IsByte (address6 index)
    address6_shape index = (
      omega (
        arith,
        length-append (take 12 a.ipv6_base) (index_bytes index),
        length-take 12 a.ipv6_base,
        valid.base6_length,
      ),
      All-append IsByte (take 12 a.ipv6_base) (index_bytes index)
          (All-take IsByte 12 a.ipv6_base valid.base6_bytes) (omega arith),
    )

    last_four : (index : ℕ) → drop 12 (address6 index) ≡ index_bytes index
    last_four index =
        drop-append (take 12 a.ipv6_base) (index_bytes index) 12
          (omega (arith, length-take 12 a.ipv6_base, valid.base6_length))

    no_wrap : (index : ℕ) → index ≤ a.ipv4_hosts → address4 index ≡ a.ipv4_base + index
    no_wrap index h = omega (arith, valid.fits)

    same_block :
        (index : ℕ)
        → index ≤ a.ipv4_hosts
        → (a.ipv4_base + index) / 2 ^ (32 - a.ipv4_prefix) * 2 ^ (32 - a.ipv4_prefix) ≡ a.ipv4_base
    same_block index h = block_of _ _ index valid.aligned (omega (arith, IsValid-hosts_lt a valid))

    -- On a well-formed allocator, the IPv4 address of an index reads back as that much above the
    -- base, and lies in the block of the prefix.
    pub address_for_in_block :
        (index : ℕ) (v4 v6 : Str)
        → address_for inet a index ≡ ok (v4, v6)
        → (inet.pton4 v4 ≡ some (a.ipv4_base + index))
          × ((a.ipv4_base + index) / 2 ^ (32 - a.ipv4_prefix) * 2 ^ (32 - a.ipv4_prefix)
              ≡ a.ipv4_base)
    address_for_in_block index v4 v6 e =
        let (lo, hi, e4, _) = address_for_lem index v4 v6 e in
        (
          rw (e4, no_wrap index hi) (inet.pton4-ntop4 _ (omega (arith, valid.fits))),
          same_block index hi,
        )

    ntop4_same :
        (i j : ℕ)
        → i ≤ a.ipv4_hosts
        → j ≤ a.ipv4_hosts
        → inet.ntop4 (address4 i) ≡ inet.ntop4 (address4 j)
        → i ≡ j
    ntop4_same i j hi hj e =
        let same = ntop4-injective inet (address4 i) (address4 j) (omega arith) (omega arith) e in
        omega (arith, valid.fits)

    ntop6_same :
        (i j : ℕ)
        → i ≤ a.ipv4_hosts
        → j ≤ a.ipv4_hosts
        → inet.ntop6 (address6 i) ≡ inet.ntop6 (address6 j)
        → i ≡ j
    ntop6_same i j hi hj e =
        let (li, bi) = address6_shape i in
        let (lj, bj) = address6_shape j in
        let same : address6 i ≡ address6 j =
          cc (inet.pton6-ntop6 (address6 i) li bi, inet.pton6-ntop6 (address6 j) lj bj) in
        index_bytes-injective i j (omega (arith, valid.fits)) (omega (arith, valid.fits))
          (sym (last_four i) ∙ ap (drop 12) same ∙ last_four j)

    -- On a well-formed allocator, two indices that share their IPv4 or their IPv6 address are the
    -- same index.
    pub address_for-injective :
        (i j : ℕ) (v4 v6 w4 w6 : Str)
        → address_for inet a i ≡ ok (v4, v6)
        → address_for inet a j ≡ ok (w4, w6)
        → (v4 ≡ w4) ⊎ (v6 ≡ w6)
        → i ≡ j
    address_for-injective i j v4 v6 w4 w6 e f s =
        let (li, hi, e4, e6) = address_for_lem i v4 v6 e in
        let (lj, hj, f4, f6) = address_for_lem j w4 w6 f in
        elim s [
          | inl same ↦ ntop4_same i j hi hj (sym e4 ∙ same ∙ f4)
          | inr same ↦ ntop6_same i j hi hj (sym e6 ∙ same ∙ f6)
        ]
