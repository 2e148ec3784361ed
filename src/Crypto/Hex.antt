-- ===== src/Crypto/Hex.antt =====
-- hex_encode and hex_decode of src/crypto.cpp.
use wirebone_cpp.Prelude.{
  ℕ, ◌+◌, ◌-◌, ◌*◌, ◌/◌, ◌%◌, ◌<◌, ◌≡◌, refl, sym, ap, Bool, true, false, not, ◌&&◌, Option, none,
  some, List, [], ◌∷◌, arith, Str, codes, lower, to_lower, IsByte, All, length, suc, get_or,
  if◌then◌else◌, leb, ltb, ◌==◌, ==_iff, ◌≤◌, inl, inr, Bool-cases,
}
use wirebone_cpp.Prelude.Table.{table, table_entry}

-- `kHex[n]`
abbrev digit : ℕ → ℕ
digit n = get_or (codes "0123456789abcdef") n 0

-- `b >> 4` is `b / 16` and `b & 0x0f` is `b % 16`.
pub hex_encode : List ℕ → Str
hex_encode [] = []
hex_encode (b ∷ bs) = digit (b / 16) ∷ digit (b % 16) ∷ hex_encode bs

-- The lambda `nibble`; `none` is its -1.
nibble : ℕ → Option ℕ
nibble c =
    if leb b'0' c && leb c b'9'
    then some (c - b'0')
    else if leb b'a' c && leb c b'f'
    then some (c - b'a' + 10)
    else if leb b'A' c && leb c b'F'
    then some (c - b'A' + 10)
    else none

-- `out[i] = (hi << 4) | lo`, where both are below 16, and then the rest of the loop; a bad digit
-- ends the loop and leaves `out` from here on as it was.
put_byte : Option ℕ → Option ℕ → Bool × List ℕ → ℕ → List ℕ → Bool × List ℕ
put_byte (some hi) (some lo) rest o out = (rest.0, (hi * 16 + lo) ∷ rest.1)
put_byte none _ rest o out = (false, o ∷ out)
put_byte (some hi) none rest o out = (false, o ∷ out)

decode_loop : Str → List ℕ → Bool × List ℕ
decode_loop hex [] = (true, [])
decode_loop [] (o ∷ out) = (false, o ∷ out)
decode_loop (h ∷ []) (o ∷ out) = (false, o ∷ out)
decode_loop (h ∷ l ∷ hex) (o ∷ out) = put_byte (nibble h) (nibble l) (decode_loop hex out) o out

-- The result and what the caller's `out` holds afterwards.
unfoldable pub hex_decode : Str → List ℕ → Bool × List ℕ
unfolding decode_loop put_byte nibble
hex_decode hex out =
    if not (length hex == length out * 2) then (false, out) else decode_loop hex out

check_digit : ℕ → Bool
unfolding nibble
check_digit n = elim (nibble (digit n)) [ none ↦ false | some m ↦ m == n ]

nibble-digit : (n : ℕ) → n < 16 → nibble (digit n) ≡ some n
unfolding check_digit table
nibble-digit n h = ground (arith, table_entry check_digit 16 n h refl)

length-hex_encode : (bs : List ℕ) → length (hex_encode bs) ≡ length bs * 2
unfolding hex_encode
length-hex_encode [] = refl
length-hex_encode (b ∷ bs) = omega (arith, length-hex_encode bs)

decode_loop-hex_encode :
    (bs out : List ℕ)
    → All IsByte bs
    → length out ≡ length bs
    → decode_loop (hex_encode bs) out ≡ (true, bs)
unfolding decode_loop hex_encode put_byte
decode_loop-hex_encode [] [] h e = refl
decode_loop-hex_encode [] (o ∷ out) h e = absurd (omega arith)
decode_loop-hex_encode (b ∷ bs) [] h e = absurd (omega arith)
decode_loop-hex_encode (b ∷ bs) (o ∷ out) (hb, h) e =
    rw
      (
        nibble-digit (b / 16) (omega arith),
        nibble-digit (b % 16) (omega arith),
        decode_loop-hex_encode bs out h (omega arith),
      )
      (ap (λ (t : ℕ). (true, t ∷ bs)) (omega arith))

pub hex_decode-hex_encode :
    (bs out : List ℕ)
    → All IsByte bs
    → length out ≡ length bs
    → hex_decode (hex_encode bs) out ≡ (true, bs)
unfolding hex_decode
hex_decode-hex_encode bs out h e =
    ground (arith, length-hex_encode bs, decode_loop-hex_encode bs out h e)

check_nibble : ℕ → Bool
unfolding nibble
check_nibble c = elim (nibble c) [ none ↦ true | some v ↦ ltb v 16 && (digit v == to_lower c) ]

nibble_high : (c : ℕ) → 128 ≤ c → nibble c ≡ none
unfolding nibble
nibble_high c h = ground arith

nibble-digit-lower : (c v : ℕ) → nibble c ≡ some v → (v < 16) × (digit v ≡ to_lower c)
unfolding check_nibble table
nibble-digit-lower c v e = elim (Bool-cases (ltb c 128)) [
  | inl small ↦
      ground
        (arith, table_entry check_nibble 128 c (ground arith) refl, ==_iff (digit v) (to_lower c))
  | inr large ↦ cc (nibble_high c (ground arith))
]

-- What an accepted text says: its lower-case form is the encoding of the result.
abbrev pub Decodes : Str → List ℕ → List ℕ → Type 0
Decodes hex out res = All IsByte res × (length res ≡ length out) × (hex_encode res ≡ lower hex)

put_byte-true :
    (a b : Option ℕ) (rest : Bool × List ℕ) (o : ℕ) (out res : List ℕ)
    → put_byte a b rest o out ≡ (true, res)
    → (hi : ℕ) × (lo : ℕ) × (a ≡ some hi)
      × (b ≡ some lo)
      × (rest.0 ≡ true)
      × (res ≡ (hi * 16 + lo) ∷ rest.1)
unfolding put_byte
put_byte-true (some hi) (some lo) rest o out res e =
    (hi, lo, refl, refl, ap (λ (t : Bool × List ℕ). t.0) e, sym (ap (λ (t : Bool × List ℕ). t.1) e))
put_byte-true none b rest o out res e = cc
put_byte-true (some hi) none rest o out res e = cc

hex_encode-cons :
    (hi lo h l : ℕ) (bs : List ℕ) (hex : Str)
    → (hi < 16) × (digit hi ≡ to_lower h)
    → (lo < 16) × (digit lo ≡ to_lower l)
    → hex_encode bs ≡ lower hex
    → hex_encode ((hi * 16 + lo) ∷ bs) ≡ lower (h ∷ l ∷ hex)
unfolding hex_encode
hex_encode-cons hi lo h l bs hex (bh, eh) (bl, el) e =
    let front : (hi * 16 + lo) / 16 ≡ hi = omega arith in
    let back : (hi * 16 + lo) % 16 ≡ lo = omega arith in rw (front, back, eh, el, e)

pair_eq : (p : Bool × List ℕ) → p.0 ≡ true → p ≡ (true, p.1)
pair_eq (b, xs) e = rw e

decode_loop_sound :
    (hex : Str) (out res : List ℕ)
    → length hex ≡ length out * 2
    → decode_loop hex out ≡ (true, res)
    → Decodes hex out res
unfolding decode_loop hex_encode
decode_loop_sound [] [] res e h = rw (← ap (λ (t : Bool × List ℕ). t.1) h) (tt, refl, refl)
decode_loop_sound (x ∷ hex) [] res e h = absurd (omega arith)
decode_loop_sound [] (o ∷ out) res e h = absurd (omega arith)
decode_loop_sound (c ∷ []) (o ∷ out) res e h = absurd (omega arith)
decode_loop_sound (h ∷ l ∷ hex) (o ∷ out) res e d =
    let (hi, lo, eh, el, ok_rest, er) = put_byte-true (nibble h) (nibble l) _ o out res d in
    let (bytes, len, enc) = decode_loop_sound hex out _ (omega arith) (pair_eq _ ok_rest) in
    let dh = nibble-digit-lower h hi eh in
    let dl = nibble-digit-lower l lo el in
    rw er ((omega arith, bytes), ap suc len, hex_encode-cons hi lo h l _ hex dh dl enc)

-- What `hex_decode` accepts fills the buffer with bytes whose encoding is the text in lower case.
pub hex_decode_sound :
    (hex : Str) (out res : List ℕ) → hex_decode hex out ≡ (true, res) → Decodes hex out res
unfolding hex_decode
hex_decode_sound hex out res e = elim (Bool-cases (length hex == length out * 2)) [
  | inl same ↦ decode_loop_sound hex out res (ground arith) (rw same at e)
  | inr other ↦ cc (rw other at e)
]
