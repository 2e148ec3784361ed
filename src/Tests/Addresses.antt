-- ===== src/Tests/Addresses.antt =====
-- The laws of the allocator at concrete prefixes.
use wirebone_cpp.Prelude.{ℕ, ◌≡◌, [], ◌∷◌, ◌++◌, refl, inl, replicate, Str, codes, ok}
use wirebone_cpp.Prelude.Decimal.{stoi}
use wirebone_cpp.IpAlloc.{IpAllocator, make, address_for}
use wirebone_cpp.IpAlloc.Bounds.{IsValid, make-IsValid}
use wirebone_cpp.IpAlloc.Unique.{address_for-injective}
use wirebone_cpp.Samples.{sample_inet}

abbrev pub cidr4 : Str
cidr4 = 1681915904 ∷ codes "/29"

abbrev pub cidr6 : Str
cidr6 = replicate 16 0 ++ codes "/64"

abbrev pub small : IpAllocator
small = record {
  ipv4_cidr = cidr4;
  ipv6_cidr = cidr6;
  ipv4_base = 1681915904;
  ipv4_prefix = 29;
  ipv4_hosts = 7;
  ipv6_base = replicate 16 0;
  ipv6_prefix = 64;
}

pub small_made : make sample_inet cidr4 cidr6 ≡ ok small
unfolding make stoi
small_made = refl

make-IsValid_example : IsValid small
make-IsValid_example = make-IsValid sample_inet cidr4 cidr6 small small_made

third : address_for sample_inet small 3 ≡ ok (1681915907 ∷ [], replicate 12 0 ++ 0 ∷ 0 ∷ 0 ∷ 3 ∷ [])
unfolding address_for
third = refl

address_for-injective_example : ◌≡◌ {A = ℕ} 3 3
address_for-injective_example =
    address_for-injective sample_inet small (make-IsValid sample_inet cidr4 cidr6 small small_made)
      3 3 (1681915907 ∷ []) (replicate 12 0 ++ 0 ∷ 0 ∷ 0 ∷ 3 ∷ []) (1681915907 ∷ [])
      (replicate 12 0 ++ 0 ∷ 0 ∷ 0 ∷ 3 ∷ []) third third (inl refl)
