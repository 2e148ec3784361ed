-- ===== src/Keys/Laws.antt =====
-- Parsing and printing of keys (src/keys.cpp).
use wirebone_cpp.Prelude.{
  ℕ, ◌≡◌, ◌≢◌, Bool, true, false, List, ◌++◌, Str, length, refl, take, drop, All, IsByte, arith,
  lower, str_eq_iff, take-append-drop, ap, ◌∙◌, sym, ltb, Bool-cases, inl, inr, str_eq, ◌||◌, not,
}
use wirebone_cpp.Crypto.Hex.{hex_encode, hex_decode, hex_decode-hex_encode, hex_decode_sound}
use wirebone_cpp.Keys.{KeyKind, machine, node, disco, prefix_for, format_key, parse_key}

-- A text that begins with the prefix of its kind goes to `hex_decode`.
parse_key-prefix :
    (kind : KeyKind) (hex : Str) (out : List ℕ)
    → parse_key kind (prefix_for kind ++ hex) out ≡ hex_decode hex out
unfolding parse_key
parse_key-prefix machine hex out = ground arith
parse_key-prefix node hex out = ground arith
parse_key-prefix disco hex out = ground arith

-- Every 32-byte key that is printed is read back, whatever the buffer of 32 bytes held.
pub parse_key-format_key :
    (kind : KeyKind) (raw out : List ℕ)
    → All IsByte raw
    → length raw ≡ 32
    → length out ≡ 32
    → parse_key kind (format_key kind raw) out ≡ (true, raw)
unfolding format_key
parse_key-format_key kind raw out bytes e d =
    parse_key-prefix kind (hex_encode raw) out ∙ hex_decode-hex_encode raw out bytes (d ∙ sym e)

-- A key printed for one kind is refused, and the buffer kept, when it is read as another.
pub parse_key_other_kind :
    (kind other : KeyKind) (raw out : List ℕ)
    → kind ≢ other
    → parse_key kind (format_key other raw) out ≡ (false, out)
unfolding format_key parse_key
parse_key_other_kind machine machine raw out ne = absurd (ne refl)
parse_key_other_kind node node raw out ne = absurd (ne refl)
parse_key_other_kind disco disco raw out ne = absurd (ne refl)
parse_key_other_kind machine node raw out ne = ground arith
parse_key_other_kind machine disco raw out ne = ground arith
parse_key_other_kind node machine raw out ne = ground arith
parse_key_other_kind node disco raw out ne = ground arith
parse_key_other_kind disco machine raw out ne = ground arith
parse_key_other_kind disco node raw out ne = ground arith

abbrev Reads : KeyKind → Str → List ℕ → List ℕ → Type 0
Reads kind text out raw =
    (hex : Str) × (text ≡ prefix_for kind ++ hex)
    × (lower hex ≡ hex_encode raw)
    × (length raw ≡ length out)
    × All IsByte raw

abbrev refused : KeyKind → Str → Bool
refused kind text =
    ltb (length text) (length (prefix_for kind))
    || not (str_eq (take (length (prefix_for kind)) text) (prefix_for kind))

has_prefix :
    (kind : KeyKind) (text : Str)
    → refused kind text ≡ false
    → take (length (prefix_for kind)) text ≡ prefix_for kind
has_prefix kind text h =
    (str_eq_iff (take (length (prefix_for kind)) text) (prefix_for kind)).0 (ground arith)

accepted :
    (kind : KeyKind) (text : Str) (out raw : List ℕ)
    → refused kind text ≡ false
    → hex_decode (drop (length (prefix_for kind)) text) out ≡ (true, raw)
    → Reads kind text out raw
accepted kind text out raw good d =
    let n = length (prefix_for kind) in
    let (bytes, len, enc) = hex_decode_sound (drop n text) out raw d in
    let whole =
      sym (take-append-drop n text) ∙ ap (λ t. t ++ drop n text) (has_prefix kind text good) in
    (drop n text, whole, sym enc, len, bytes)

-- A text that `parse_key` accepts is the prefix of the kind and then, up to the case of letters, the encoding of the result,
-- which fills the buffer with bytes.
pub parse_key_sound :
    (kind : KeyKind) (text : Str) (out raw : List ℕ)
    → parse_key kind text out ≡ (true, raw)
    → (hex : Str) × (text ≡ prefix_for kind ++ hex)
      × (lower hex ≡ hex_encode raw)
      × (length raw ≡ length out)
      × All IsByte raw
unfolding parse_key
parse_key_sound kind text out raw e = elim (Bool-cases (refused kind text)) [
  | inl bad ↦ cc (rw bad at e)
  | inr good ↦ accepted kind text out raw good (rw good at e)
]
