-- ===== src/Prelude/Decimal.antt =====
-- `std::stoi` and `std::to_string` of the C++ standard library.
use Prim.Native.Nat.{ℕ, zero, suc, ◌+◌, ◌-◌, ◌*◌, ◌/◌, ◌%◌, ◌^◌, ◌<◌}
use mathlib.Core.Path.{◌≡◌, sym, ap, ◌∙◌}
use mathlib.Core.Logic.{inl, inr}
use mathlib.Core.Bool.{Bool, true, false, not, ◌&&◌, ◌||◌}
use mathlib.Core.List.{[], ◌∷◌, ◌++◌}
use native.Mathlib.Omega.{arith}
use wirebone_cpp.Prelude.Tests.{ltb, leb, ◌==◌, if◌then◌else◌, Bool-cases}
use wirebone_cpp.Prelude.Text.{Str}
use wirebone_cpp.Prelude.Signed.{ℤ, pos, negsuc}
use wirebone_cpp.Prelude.Faults.{Outcome, ok, throws, Fault}

unfoldable pub is_space : ℕ → Bool
is_space c = c == 32 || leb 9 c && leb c 13

abbrev pub is_digit : ℕ → Bool
is_digit c = leb b'0' c && leb c b'9'

unfoldable pub skip_space : Str → Str
unfolding is_space
skip_space [] = []
skip_space (c ∷ s) = if is_space c then skip_space s else c ∷ s

read_digits : ℕ → Str → ℕ
read_digits acc [] = acc
read_digits acc (c ∷ s) = if is_digit c then read_digits (acc * 10 + (c - b'0')) s else acc

starts_digit : Str → Bool
starts_digit [] = false
starts_digit (c ∷ s) = is_digit c

-- The digits behind a sign, which `negative` tells; an `int` has 32 bits.
stoi_digits : Bool → Str → Outcome ℤ
unfolding starts_digit read_digits
stoi_digits negative s =
    let v : ℕ = read_digits 0 s in
    if not (starts_digit s)
    then throws Fault.invalid_argument
    else if negative
    then (if ltb (2 ^ 31) v
        then throws Fault.out_of_range
        else if v == 0
        then ok (pos 0)
        else ok (negsuc (v - 1)))
    else if leb (2 ^ 31) v
    then throws Fault.out_of_range
    else ok (pos v)

stoi_signed : Str → Outcome ℤ
unfolding stoi_digits
stoi_signed [] = throws Fault.invalid_argument
stoi_signed (c ∷ s) =
    if c == b'-'
    then stoi_digits true s
    else if c == b'+'
    then stoi_digits false s
    else stoi_digits false (c ∷ s)

unfoldable pub stoi : Str → Outcome ℤ
unfolding skip_space stoi_signed
stoi s = stoi_signed (skip_space s)

-- The decimal digits of `n` below 10 ^ (k + 1).
digits : ℕ → ℕ → Str
digits zero n = (n + b'0') ∷ []
digits (suc k) n =
    let front = digits k (n / 10) in
    if ltb n 10 then (n + b'0') ∷ [] else front ++ (n % 10 + b'0') ∷ []

-- A `uint64_t` has at most 20 digits.
unfoldable pub to_string : ℕ → Str
unfolding digits
to_string n = digits 19 n

-- The number that a text of digits stands for.
value : Str → ℕ
value s = read_digits 0 s

unfoldable pub IsDigits : Str → Type 0
IsDigits [] = Unit {0}
IsDigits (c ∷ s) = (is_digit c ≡ true) × IsDigits s

read_digits-append :
    (acc : ℕ) (s : Str) (c : ℕ)
    → IsDigits s
    → is_digit c ≡ true
    → read_digits acc (s ++ c ∷ []) ≡ read_digits acc s * 10 + (c - b'0')
unfolding read_digits IsDigits
read_digits-append acc [] c h k = ground arith
read_digits-append acc (x ∷ s) c h k =
    ground (arith, read_digits-append (acc * 10 + (x - b'0')) s c h.1 k)

append-IsDigits : (s : Str) (c : ℕ) → IsDigits s → is_digit c ≡ true → IsDigits (s ++ c ∷ [])
unfolding IsDigits
append-IsDigits [] c h k = (k, tt)
append-IsDigits (x ∷ s) c h k = (h.0, append-IsDigits s c h.1 k)

is_digit_of : (n : ℕ) → n < 10 → is_digit (n + b'0') ≡ true
is_digit_of n h = ground arith

one_digit : (n : ℕ) → n < 10 → IsDigits ((n + b'0') ∷ []) × (value ((n + b'0') ∷ []) ≡ n)
unfolding value IsDigits read_digits
one_digit n h = ((is_digit_of n h, tt), ground (arith, is_digit_of n))

digits-value : (k n : ℕ) → n < 10 ^ suc k → IsDigits (digits k n) × (value (digits k n) ≡ n)
unfolding value digits
digits-value zero n h = one_digit n (omega arith)
digits-value (suc k) n h = elim (Bool-cases (ltb n 10)) [
  | inl small ↦ rw small (one_digit n (ground arith))
  | inr large ↦
      let c = n % 10 + b'0' in
      let (ds, v) = digits-value k (n / 10) (omega arith) in
      let d = is_digit_of (n % 10) (omega arith) in
      rw large (append-IsDigits _ c ds d, rw (read_digits-append 0 _ c ds d, v) (omega arith))
]

-- Two different `uint64_t`s print differently.
pub to_string-injective : (a b : ℕ) → a < 2 ^ 64 → b < 2 ^ 64 → to_string a ≡ to_string b → a ≡ b
unfolding to_string
to_string-injective a b ha hb e =
    let va = (digits-value 19 a (omega arith)).1 in
    let vb = (digits-value 19 b (omega arith)).1 in sym va ∙ ap value e ∙ vb

pub to_string-IsDigits : (n : ℕ) → n < 2 ^ 64 → IsDigits (to_string n)
unfolding to_string
to_string-IsDigits n h = (digits-value 19 n (omega arith)).0

append-starts_digit : (s : Str) (c : ℕ) → starts_digit s ≡ true → starts_digit (s ++ c ∷ []) ≡ true
unfolding starts_digit
append-starts_digit [] c h = cc
append-starts_digit (x ∷ s) c h = h

digits-starts_digit : (k n : ℕ) → n < 10 ^ suc k → starts_digit (digits k n) ≡ true
unfolding digits starts_digit
digits-starts_digit zero n h = is_digit_of n (omega arith)
digits-starts_digit (suc k) n h = elim (Bool-cases (ltb n 10)) [
  | inl small ↦ rw small (is_digit_of n (ground arith))
  | inr large ↦
      rw large
        (append-starts_digit (digits k (n / 10)) _ (digits-starts_digit k (n / 10) (omega arith)))
]

-- A text of digits that starts with one is read as its value.
stoi_of_digits :
    (s : Str) → IsDigits s → starts_digit s ≡ true → value s < 2 ^ 31 → stoi s ≡ ok (pos (value s))
unfolding IsDigits starts_digit stoi skip_space is_space stoi_signed stoi_digits value
stoi_of_digits [] h k small = cc
stoi_of_digits (c ∷ s) h k small =
    let solid : is_space c ≡ false = ground arith in
    let minus : (c == b'-') ≡ false = ground arith in
    let plus : (c == b'+') ≡ false = ground arith in
    let bound : read_digits (0 + (c - 48)) s < 2 ^ 31 = rw k at small in
    let fits : leb (2 ^ 31) (read_digits (0 + (c - 48)) s) ≡ false = ground arith in
    rw (solid, minus, plus, k, fits, stoi, skip_space, stoi_signed, stoi_digits)

-- A number that fits an `int` is read back.
pub stoi-to_string : (n : ℕ) → n < 2 ^ 31 → stoi (to_string n) ≡ ok (pos n)
unfolding to_string
stoi-to_string n h =
    let (ds, v) = digits-value 19 n (omega arith) in
    stoi_of_digits (to_string n) ds (digits-starts_digit 19 n (omega arith)) (rw v h)
    ∙ ap (λ k. ok (pos k)) v
