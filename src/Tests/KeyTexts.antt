-- ===== src/Tests/KeyTexts.antt =====
-- The laws on key texts and on hex at concrete texts.
use wirebone_cpp.Prelude.{ℕ, ◌≡◌, [], ◌∷◌, refl, true, List, codes, replicate, arith}
use wirebone_cpp.Crypto.Hex.{hex_decode}
use wirebone_cpp.Keys.{node, format_key, parse_key}
use wirebone_cpp.Keys.Laws.{parse_key-format_key}

abbrev raw : List ℕ
raw = replicate 32 171

parse_key-format_key_example : parse_key node (format_key node raw) (replicate 32 0) ≡ (true, raw)
parse_key-format_key_example =
    parse_key-format_key node raw (replicate 32 0) (omega arith) refl refl

abbrev two_bytes : List ℕ
two_bytes = 171 ∷ 15 ∷ []

two_read : hex_decode (codes "aB0F") (replicate 2 0) ≡ (true, two_bytes)
unfolding hex_decode
two_read = refl

key_read : parse_key node (codes "nodekey:aB0F") (replicate 2 0) ≡ (true, two_bytes)
unfolding parse_key hex_decode
key_read = refl
