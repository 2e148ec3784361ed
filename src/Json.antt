-- ===== src/Json.antt =====
-- What the program uses of nlohmann::json, as an interface: values, access to them, texts.
use wirebone_cpp.Prelude.{
  ℕ, ◌≡◌, Bool, false, is_empty, Option, some, List, [], ◌∷◌, ◌++◌, map, Str, lookup, ℤ, to_i32,
}

-- `none` is a thrown `type_error` or `parse_error`. `value_int` is `value` with an `int` default,
-- whose result is an `int`. `read` is `operator>>`, `dump` and `dump_indent` are `dump()` and
-- `dump(n)`, which throw where a text is not UTF-8.
pub record JsonLib : Type 1 where
  pub Json : Type 0
  pub of_str : Str → Json
  pub of_bool : Bool → Json
  pub of_int : ℤ → Json
  pub array : List Json → Json
  pub object : List (Str × Json) → Json
  pub is_object : Json → Bool
  pub is_array : Json → Bool
  pub is_string : Json → Bool
  pub find : Json → Str → Option Json
  pub items : Json → List Json
  pub get_str : Json → Option Str
  pub get_strs : Json → Option (List Str)
  pub value_str : Json → Str → Str → Option Str
  pub value_bool : Json → Str → Bool → Option Bool
  pub value_int : Json → Str → ℤ → Option ℤ
  pub parse : Str → Option Json
  pub read : Str → Option Json
  pub dump : Json → Option Str
  pub dump_indent : ℕ → Json → Option Str
  pub find-object : (kvs : List (Str × Json)) (k : Str) → find (object kvs) k ≡ lookup k kvs
  pub items-array : (xs : List Json) → items (array xs) ≡ xs
  pub get_str-of_str : (s : Str) → get_str (of_str s) ≡ some s
  pub get_strs-array : (xs : List Str) → get_strs (array (map of_str xs)) ≡ some xs
  pub value_str-object :
      (kvs : List (Str × Json)) (k d v : Str)
      → lookup k kvs ≡ some (of_str v)
      → value_str (object kvs) k d ≡ some v
  pub value_bool-object :
      (kvs : List (Str × Json)) (k : Str) (d v : Bool)
      → lookup k kvs ≡ some (of_bool v)
      → value_bool (object kvs) k d ≡ some v
  pub value_int-object :
      (kvs : List (Str × Json)) (k : Str) (d v : ℤ)
      → lookup k kvs ≡ some (of_int v)
      → value_int (object kvs) k d ≡ some (to_i32 v)
  pub parse-dump : (j : Json) (t : Str) → dump j ≡ some t → parse t ≡ some j
  pub dump_ne : (j : Json) (t : Str) → dump j ≡ some t → is_empty t ≡ false
  pub read-dump_indent :
      (n : ℕ) (j : Json) (t : Str) → dump_indent n j ≡ some t → read (t ++ b'\n' ∷ []) ≡ some j
