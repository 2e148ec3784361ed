-- ===== src/Samples/Addresses.antt =====
-- A stand-in for inet_pton and inet_ntop, whose texts hold the address as it is.
use wirebone_cpp.Prelude.{
  ℕ, ◌≡◌, ◌<◌, ◌^◌, refl, Bool, true, ◌&&◌, Option, none, some, List, [], ◌∷◌, Str, IsByte, All,
  length, ltb, ◌==◌, if◌then◌else◌, arith,
}
use wirebone_cpp.IpAlloc.{Inet}

abbrev number : Str → Option ℕ
number (a ∷ []) = if ltb a (2 ^ 32) then some a else none
number _ = none

abbrev bytes : List ℕ → Bool
bytes [] = true
bytes (x ∷ xs) = ltb x 256 && bytes xs

abbrev raw_of : Str → Option (List ℕ)
raw_of s = if (length s == 16) && bytes s then some s else none

pub number_lt : (s : Str) (a : ℕ) → number s ≡ some a → a < 2 ^ 32
number_lt [] a e = cc
number_lt (x ∷ []) a e = ground arith
number_lt (x ∷ y ∷ s) a e = cc

pub number_lem : (a : ℕ) → a < 2 ^ 32 → number (a ∷ []) ≡ some a
number_lem a h = ground arith

pub bytes_sound : (xs : List ℕ) → bytes xs ≡ true → All IsByte xs
bytes_sound [] h = tt
bytes_sound (x ∷ xs) h = (ground arith, bytes_sound xs (ground arith))

pub bytes-All : (xs : List ℕ) → All IsByte xs → bytes xs ≡ true
bytes-All [] h = refl
bytes-All (x ∷ xs) (b, h) = ground (arith, bytes-All xs h)

pub raw_of_shape :
    (s : Str) (raw : List ℕ) → raw_of s ≡ some raw → (length raw ≡ 16) × All IsByte raw
raw_of_shape s raw e =
    let parts : (length s ≡ 16) × (bytes s ≡ true) × (s ≡ raw) = ground arith in
    let (len, all, same) = parts in rw (← same) (len, bytes_sound s all)

pub raw_of_lem : (raw : List ℕ) → length raw ≡ 16 → All IsByte raw → raw_of raw ≡ some raw
raw_of_lem raw len all = ground (arith, bytes-All raw all)

abbrev pub sample_inet : Inet
sample_inet = record {
  pton4 = number;
  ntop4 = λ a. a ∷ [];
  pton6 = raw_of;
  ntop6 = λ raw. raw;
  pton4_lt = number_lt;
  pton4-ntop4 = number_lem;
  pton6_shape = raw_of_shape;
  pton6-ntop6 = raw_of_lem;
}
