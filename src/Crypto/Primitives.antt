-- ===== src/Crypto/Primitives.antt =====
-- The primitives that src/crypto.cpp takes from OpenSSL, as an interface.
use wirebone_cpp.Prelude.{ℕ, ◌≡◌, ◌+◌, Option, some, List, length}

-- `blake2s` is the digest of all the data that is given to it. `shared` is `none` where the
-- derivation fails, as it does on a key of small order; `unseal` where the tag does not fit.
pub record Primitives : Type 0 where
  pub blake2s : List ℕ → List ℕ
  pub public_key : List ℕ → List ℕ
  pub shared : List ℕ → List ℕ → Option (List ℕ)
  pub seal : List ℕ → List ℕ → List ℕ → List ℕ → List ℕ
  pub unseal : List ℕ → List ℕ → List ℕ → List ℕ → Option (List ℕ)
  pub length-blake2s : (xs : List ℕ) → length (blake2s xs) ≡ 32
  pub length-public_key : (priv : List ℕ) → length (public_key priv) ≡ 32
  pub shared_comm : (a b : List ℕ) → shared a (public_key b) ≡ shared b (public_key a)
  pub length-seal :
      (key nonce ad text : List ℕ) → length (seal key nonce ad text) ≡ length text + 16
  pub unseal-seal :
      (key nonce ad text : List ℕ) → unseal key nonce ad (seal key nonce ad text) ≡ some text
