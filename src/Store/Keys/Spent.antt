-- ===== src/Store/Keys/Spent.antt =====
-- A list of keys in which a one-shot key was used (consume_preauth of src/state.cpp).
use wirebone_cpp.Prelude.{
  ◌≡◌, refl, sym, arith, Bool, true, false, not, ◌&&◌, Option, none, some, List, [], ◌∷◌, ◌++◌, map,
  Str, ℤ, str_eq, if◌then◌else◌, inl, inr, Bool-cases,
}
use wirebone_cpp.Store.Types.{PreauthKey, PreauthClaim}
use wirebone_cpp.Store.Persist.{}
use wirebone_cpp.Store.Persist.Restore.{cut_expiry}
use wirebone_cpp.Store.Keys.{claim_key, keep_key}
use wirebone_cpp.Store.Keys.Consume.{find_key}

-- The first key of that name, if there is one, is a one-shot key that was used.
unfoldable pub is_spent : Str → List PreauthKey → Bool
is_spent key [] = true
is_spent key (k ∷ ks) = if str_eq k.key key then k.used && not k.reusable else is_spent key ks

pub is_spent-refused :
    (now : ℤ) (key : Str) (ks : List PreauthKey)
    → is_spent key ks ≡ true
    → claim_key now key ks ≡ none
unfolding is_spent claim_key
is_spent-refused now key [] h = refl
is_spent-refused now key (k ∷ ks) h = elim (Bool-cases (str_eq k.key key)) [
  | inl same ↦ ground arith
  | inr other ↦ rw (other, is_spent-refused now key ks (rw other at h))
]

is_spent-keep_key :
    (key : Str) (k : PreauthKey) (o : Option (PreauthClaim × List PreauthKey)) (c : PreauthClaim)
    (after : List PreauthKey)
    → keep_key k o ≡ some (c, after)
    → (rest : List PreauthKey) × (o ≡ some (c, rest)) × (after ≡ k ∷ rest)
is_spent-keep_key key k none c after e = cc
is_spent-keep_key key k (some (d, rest)) c after e =
    let both : (d ≡ c) × (k ∷ rest ≡ after) = ground arith in (rest, rw both.0 refl, sym both.1)

-- Consuming any key leaves it spent.
pub is_spent-claim_key :
    (now : ℤ) (other key : Str) (ks after : List PreauthKey) (c : PreauthClaim)
    → claim_key now other ks ≡ some (c, after)
    → is_spent key ks ≡ true
    → is_spent key after ≡ true
unfolding is_spent claim_key
is_spent-claim_key now other key [] after c e h = cc
is_spent-claim_key now other key (k ∷ ks) after c e h = elim (Bool-cases (str_eq k.key other)) [
  | inl same ↦
      let used : record k { used = true } ∷ ks ≡ after = ground arith in
      rw (sym used) (ground arith)
  | inr differs ↦
      let (rest, found, same) =
        is_spent-keep_key key k (claim_key now other ks) c after (rw differs at e) in
      elim (Bool-cases (str_eq k.key key)) [
        | inl it ↦ rw (same, it) (rw it at h)
        | inr not_it ↦
            rw (same, not_it) (is_spent-claim_key now other key ks rest c found (rw not_it at h))
      ]
]

-- The first use of a one-shot key leaves it spent.
pub is_spent-granted :
    (now : ℤ) (key : Str) (ks after : List PreauthKey) (k : PreauthKey) (c : PreauthClaim)
    → find_key key ks ≡ some k
    → k.reusable ≡ false
    → claim_key now key ks ≡ some (c, after)
    → is_spent key after ≡ true
unfolding is_spent claim_key find_key
is_spent-granted now key [] after k c f once e = cc
is_spent-granted now key (j ∷ ks) after k c f once e = elim (Bool-cases (str_eq j.key key)) [
  | inl same ↦
      let this : j ≡ k = ground arith in
      let one_shot : j.reusable ≡ false = rw this once in
      let used : record j { used = true } ∷ ks ≡ after = ground arith in
      rw (sym used) (ground arith)
  | inr other ↦
      let (rest, found, same) =
        is_spent-keep_key key j (claim_key now key ks) c after (rw other at e) in
      rw (same, other) (is_spent-granted now key ks rest k c (rw other at f) once found)
]

pub is_spent-append :
    (key : Str) (ks : List PreauthKey) (k : PreauthKey)
    → str_eq k.key key ≡ false
    → is_spent key ks ≡ true
    → is_spent key (ks ++ k ∷ []) ≡ true
unfolding is_spent
is_spent-append key [] k other h = ground arith
is_spent-append key (j ∷ ks) k other h = ground (arith, is_spent-append key ks k other)

pub is_spent-cut_expiry :
    (key : Str) (ks : List PreauthKey) → is_spent key (map cut_expiry ks) ≡ is_spent key ks
unfolding is_spent
is_spent-cut_expiry key [] = refl
is_spent-cut_expiry key (k ∷ ks) = rw (is_spent-cut_expiry key ks)
