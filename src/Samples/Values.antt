-- ===== src/Samples/Values.antt =====
-- A stand-in for nlohmann::json: a value is its text, a tag and then its parts, each behind its
-- length.
use wirebone_cpp.Prelude.{
  ℕ, ◌≡◌, ◌≤◌, refl, ap, ◌∙◌, Bool, true, false, is_empty, Option, none, some, List, [], ◌∷◌, ◌++◌,
  map, Str, lookup, ℤ, pos, negsuc, to_i32, length, take, drop, length-append, take-append,
  drop-append, arith, zero, suc, ◌==◌, if◌then◌else◌,
}
use wirebone_cpp.Json.{JsonLib}

abbrev pack : List Str → Str
pack [] = []
pack (x ∷ xs) = length x ∷ (x ++ pack xs)

abbrev unpack : ℕ → Str → List Str
unpack zero t = []
unpack (suc fuel) [] = []
unpack (suc fuel) (n ∷ t) = take n t ∷ unpack fuel (drop n t)

pub unpack-pack : (fuel : ℕ) (xs : List Str) → length (pack xs) ≤ fuel → unpack fuel (pack xs) ≡ xs
unpack-pack zero [] h = refl
unpack-pack (suc fuel) [] h = refl
unpack-pack zero (x ∷ xs) h = absurd (omega arith)
unpack-pack (suc fuel) (x ∷ xs) h = rw (
  take-append x (pack xs) (length x) refl,
  drop-append x (pack xs) (length x) refl,
  unpack-pack fuel xs (omega (arith, length-append x (pack xs))),
)

abbrev parts : Str → List Str
parts t = unpack (length t) t

pub parts-pack : (xs : List Str) → parts (pack xs) ≡ xs
parts-pack xs = unpack-pack (length (pack xs)) xs (omega arith)

abbrev flat : List (Str × Str) → List Str
flat [] = []
flat ((k, v) ∷ kvs) = k ∷ v ∷ flat kvs

abbrev paired : List Str → List (Str × Str)
paired (k ∷ v ∷ rest) = (k, v) ∷ paired rest
paired _ = []

pub paired-flat : (kvs : List (Str × Str)) → paired (flat kvs) ≡ kvs
paired-flat [] = refl
paired-flat ((k, v) ∷ kvs) = ap (λ t. (k, v) ∷ t) (paired-flat kvs)

abbrev items : Str → List Str
items [] = []
items (tag ∷ t) = if tag == 4 then parts t else []

abbrev find : Str → Str → Option Str
find [] k = none
find (tag ∷ t) k = if tag == 5 then lookup k (paired (parts t)) else none

abbrev text : Str → Option Str
text [] = none
text (tag ∷ s) = if tag == 0 then some s else none

abbrev put : Option Str → Option (List Str) → Option (List Str)
put (some s) (some t) = some (s ∷ t)
put _ _ = none

abbrev texts : List Str → Option (List Str)
texts [] = some []
texts (x ∷ xs) = put (text x) (texts xs)

pub texts-of_str : (xs : List Str) → texts (map (λ s. 0 ∷ s) xs) ≡ some xs
texts-of_str [] = refl
texts-of_str (x ∷ xs) = rw (texts-of_str xs)

abbrev truth : Str → Option Bool
truth (tag ∷ b ∷ []) = if tag == 1 then some (b == 1) else none
truth _ = none

abbrev whole : Str → Option ℤ
whole (tag ∷ n ∷ []) =
    if tag == 2 then some (to_i32 (pos n)) else if tag == 3 then some (to_i32 (negsuc n)) else none
whole _ = none

abbrev of_bool : Bool → Str
of_bool b = 1 ∷ (if b then 1 else 0) ∷ []

abbrev of_int : ℤ → Str
of_int (pos n) = 2 ∷ n ∷ []
of_int (negsuc n) = 3 ∷ n ∷ []

pub truth-of_bool : (b : Bool) → truth (of_bool b) ≡ some b
truth-of_bool true = refl
truth-of_bool false = refl

pub whole-of_int : (z : ℤ) → whole (of_int z) ≡ some (to_i32 z)
whole-of_int (pos n) = refl
whole-of_int (negsuc n) = refl

abbrev default_or : {A : Type 0} → (Str → Option A) → A → Option Str → Option A
default_or f d none = some d
default_or f d (some v) = f v

abbrev said : Str → Option Str
said [] = none
said (x ∷ t) = some (x ∷ t)

pub said_lem : (j t : Str) → said j ≡ some t → (said t ≡ some j) × (is_empty t ≡ false) × (j ≡ t)
said_lem [] t e = cc
said_lem (x ∷ j) t e = let same : (x ∷ j) ≡ t = cc in rw (← same) (refl, refl, refl)

abbrev front : Str → Str
front [] = []
front (x ∷ []) = []
front (x ∷ y ∷ t) = x ∷ front (y ∷ t)

pub front-append : (t : Str) (x : ℕ) → front (t ++ x ∷ []) ≡ t
front-append [] x = refl
front-append (y ∷ []) x = refl
front-append (y ∷ z ∷ t) x = ap (λ r. y ∷ r) (front-append (z ∷ t) x)

pub find-object : (kvs : List (Str × Str)) (k : Str) → find (5 ∷ pack (flat kvs)) k ≡ lookup k kvs
find-object kvs k = rw (parts-pack (flat kvs), paired-flat kvs)

abbrev pub sample_json : JsonLib
sample_json = record {
  Json = Str;
  of_str = λ s. 0 ∷ s;
  of_bool = of_bool;
  of_int = of_int;
  array = λ xs. 4 ∷ pack xs;
  object = λ kvs. 5 ∷ pack (flat kvs);
  is_object = λ j. elim j [ [] ↦ false | (x ∷ t) ↦ x == 5 ];
  is_array = λ j. elim j [ [] ↦ false | (x ∷ t) ↦ x == 4 ];
  is_string = λ j. elim j [ [] ↦ false | (x ∷ t) ↦ x == 0 ];
  find = find;
  items = items;
  get_str = text;
  get_strs = λ j. texts (items j);
  value_str = λ j k d. default_or text d (find j k);
  value_bool = λ j k d. default_or truth d (find j k);
  value_int = λ j k d. default_or whole d (find j k);
  parse = said;
  read = λ t. said (front t);
  dump = said;
  dump_indent = λ n. said;
  find-object = find-object;
  items-array = parts-pack;
  get_str-of_str = λ s. refl;
  get_strs-array = λ xs. ap texts (parts-pack (map (λ s. 0 ∷ s) xs)) ∙ texts-of_str xs;
  value_str-object = λ kvs k d v e. rw (find-object kvs k, e);
  value_bool-object = λ kvs k d v e. rw (find-object kvs k, e) (truth-of_bool v);
  value_int-object = λ kvs k d v e. rw (find-object kvs k, e) (whole-of_int v);
  parse-dump = λ j t e. (said_lem j t e).0;
  dump_ne = λ j t e. (said_lem j t e).1;
  read-dump_indent = λ n j t e. ap said (front-append t b'\n') ∙ (said_lem j t e).0;
}
