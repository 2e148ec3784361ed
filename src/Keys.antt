-- ===== src/Keys.antt =====
-- src/keys.cpp: the texts of machine, node and disco keys.
pub mod Laws
use wirebone_cpp.Prelude.{
  ℕ, Bool, true, false, not, ◌||◌, List, [], ◌∷◌, ◌++◌, Str, codes, length, take, drop, replicate,
  str_eq, if◌then◌else◌, ltb,
}
use wirebone_cpp.Crypto.Hex.{hex_encode, hex_decode}

pub data KeyKind : Type 0 where
  machine node disco : KeyKind

abbrev pub prefix_for : KeyKind → Str
prefix_for machine = codes "mkey:"
prefix_for node = codes "nodekey:"
prefix_for disco = codes "discokey:"

unfoldable pub format_key : KeyKind → List ℕ → Str
format_key kind raw = prefix_for kind ++ hex_encode raw

-- The result and what `out` holds afterwards.
unfoldable pub parse_key : KeyKind → Str → List ℕ → Bool × List ℕ
parse_key kind text out =
    let prefix = prefix_for kind in
    let n = length prefix in
    if ltb (length text) n || not (str_eq (take n text) prefix)
    then (false, out)
    else hex_decode (drop n text) out

unfoldable pub zero_machine_key : Str
zero_machine_key = format_key machine (replicate 32 0)
