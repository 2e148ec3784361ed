-- ===== src/Store/Keys/Consume.antt =====
-- What consume_preauth grants, and how often (src/state.cpp).
use wirebone_cpp.Prelude.{
  ◌≡◌, refl, arith, Bool, true, false, not, ◌&&◌, ◌||◌, Option, none, some, List, [], ◌∷◌, Str, map,
  str_eq, ℤ, if◌then◌else◌, Bool-cases, inl, inr,
}
use wirebone_cpp.Store.Types.{PreauthKey, PreauthClaim}
use wirebone_cpp.Store.Persist.Restore.{cut_expiry}
use wirebone_cpp.Store.Keys.{claim_key, claim_of, expired, keep_key}

-- The first key of that name.
unfoldable pub find_key : Str → List PreauthKey → Option PreauthKey
find_key key [] = none
find_key key (k ∷ ks) = if str_eq k.key key then some k else find_key key ks

-- The keys with the first of that name marked as used.
unfoldable pub mark_used : Str → List PreauthKey → List PreauthKey
mark_used key [] = []
mark_used key (k ∷ ks) =
    if str_eq k.key key then record k { used = true } ∷ ks else k ∷ mark_used key ks

-- Not expired, and not a one-shot key that was used.
abbrev pub usable : ℤ → PreauthKey → Bool
usable now k = not (expired now k) && (k.reusable || not k.used)

abbrev pub granted :
    ℤ → Str → List PreauthKey → Option PreauthKey → Option (PreauthClaim × List PreauthKey)
granted now key ks none = none
granted now key ks (some k) = if usable now k then some (claim_of k, mark_used key ks) else none

keep_key-granted :
    (now : ℤ) (key : Str) (k : PreauthKey) (ks : List PreauthKey) (o : Option PreauthKey)
    → str_eq k.key key ≡ false
    → keep_key k (granted now key ks o) ≡ granted now key (k ∷ ks) o
unfolding mark_used
keep_key-granted now key k ks none h = refl
keep_key-granted now key k ks (some j) h = ground arith

-- The loop grants the first key of that name if it is neither expired nor a used one-shot key, with
-- that key marked as used and the others kept.
pub claim_key-granted :
    (now : ℤ) (key : Str) (ks : List PreauthKey)
    → claim_key now key ks ≡ granted now key ks (find_key key ks)
unfolding claim_key find_key
claim_key-granted now key [] = refl
claim_key-granted now key (k ∷ ks) = elim (Bool-cases (str_eq k.key key)) [
  | inl same ↦ rw same (unfold mark_used in ground arith)
  | inr other ↦
      rw (other, claim_key-granted now key ks)
        (keep_key-granted now key k ks (find_key key ks) other)
]

pub find_key-mark_used :
    (key : Str) (ks : List PreauthKey) (k : PreauthKey)
    → find_key key ks ≡ some k
    → find_key key (mark_used key ks) ≡ some (record k { used = true })
unfolding find_key mark_used
find_key-mark_used key [] k h = cc
find_key-mark_used key (j ∷ ks) k h = ground (arith, find_key-mark_used key ks k)

pub find_key-cut_expiry :
    (key : Str) (ks : List PreauthKey) (k : PreauthKey)
    → find_key key ks ≡ some k
    → find_key key (map cut_expiry ks) ≡ some (cut_expiry k)
unfolding find_key
find_key-cut_expiry key [] k h = cc
find_key-cut_expiry key (j ∷ ks) k h = ground (arith, find_key-cut_expiry key ks k)
