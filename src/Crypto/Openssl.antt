-- ===== src/Crypto/Openssl.antt =====
-- The wrappers of src/crypto.cpp that make and free objects of OpenSSL: random_bytes, x25519_public
-- and x25519_shared; and b64_encode.
use wirebone_cpp.Prelude.{
  ℕ, ◌≡◌, arith, Bool, ◌&&◌, Option, none, some, List, [], ◌∷◌, Str, is_empty, length, Outcome, ok,
  throws, Fault, or_throw, ◌==◌, if◌then◌else◌,
}

-- What OpenSSL answers: the objects that are made, `none` for a null pointer, and what the calls on
-- them give, `none` where they fail.
pub record Openssl : Type 0 where
  pub private_key : List ℕ → Option ℕ
  pub public_key : List ℕ → Option ℕ
  pub raw_public_key : ℕ → Option (List ℕ)
  pub new_context : ℕ → Option ℕ
  pub derive_init : ℕ → Bool
  pub set_peer : ℕ → ℕ → Bool
  pub derive : ℕ → Option (List ℕ)

-- The objects that are there; `corrupt` once one was freed that was not.
pub data Heap : Type 0 where
  objects : List ℕ → Heap
  corrupt : Heap

abbrev pub made : Option ℕ → Heap → Heap
made none h = h
made (some k) corrupt = corrupt
made (some k) (objects ks) = objects (k ∷ ks)

abbrev pub kept : ℕ → Heap → Heap
kept k corrupt = corrupt
kept k (objects ks) = objects (k ∷ ks)

-- `EVP_PKEY_free` and `EVP_PKEY_CTX_free`, which take a null pointer as well.
abbrev pub free_one : ℕ → List ℕ → Heap
free_one k [] = corrupt
free_one k (x ∷ xs) = let rest = free_one k xs in if x == k then objects xs else kept x rest

abbrev pub free : Option ℕ → Heap → Heap
free none h = h
free (some k) corrupt = corrupt
free (some k) (objects ks) = free_one k ks

-- 32 bytes, or the exception.
unfoldable pub bytes32 : Option (List ℕ) → Outcome (List ℕ)
bytes32 none = throws Fault.runtime_error
bytes32 (some bytes) = if length bytes == 32 then ok bytes else throws Fault.runtime_error

-- `raw` is what RAND_bytes gives for that many bytes, `none` where it fails.
unfoldable pub random_bytes : (ℕ → Option (List ℕ)) → ℕ → Outcome (List ℕ)
random_bytes raw n = if n == 0 then ok [] else or_throw Fault.runtime_error (raw n)

-- `bio` is what a `BIO_f_base64` writes for bytes that there are.
unfoldable pub b64_encode : (List ℕ → Str) → List ℕ → Str
b64_encode bio bytes = if is_empty bytes then [] else bio bytes

module _ (o : Openssl) where
  unfoldable pub with_key : Option ℕ → Heap → Outcome (List ℕ) × Heap
  with_key none h = (throws Fault.runtime_error, h)
  with_key (some pkey) h = (bytes32 (o.raw_public_key pkey), free (some pkey) h)

  unfoldable pub x25519_public : List ℕ → Heap → Outcome (List ℕ) × Heap
  x25519_public priv h = let pkey = o.private_key priv in with_key pkey (made pkey h)

  -- The calls on the context, up to the first that fails.
  unfoldable pub derived : ℕ → Option ℕ → Outcome (List ℕ)
  derived peer none = throws Fault.runtime_error
  derived peer (some ctx) =
      if o.derive_init ctx && o.set_peer ctx peer
      then bytes32 (o.derive ctx)
      else throws Fault.runtime_error

  -- From both keys on.
  unfoldable pub with_keys : Option ℕ → Option ℕ → Heap → Outcome (List ℕ) × Heap
  with_keys none peer h = (throws Fault.runtime_error, free peer (free none h))
  with_keys (some pkey) none h = (throws Fault.runtime_error, free none (free (some pkey) h))
  with_keys (some pkey) (some peer) h =
      let ctx = o.new_context pkey in
      (derived peer ctx, free (some peer) (free (some pkey) (free ctx (made ctx h))))

  unfoldable pub x25519_shared : List ℕ → List ℕ → Heap → Outcome (List ℕ) × Heap
  x25519_shared priv pub_key h =
      let pkey = o.private_key priv in
      let peer = o.public_key pub_key in with_keys pkey peer (made peer (made pkey h))

  -- A context that was made, or not, is gone once it is freed.
  free-made : (c : Option ℕ) (ks : List ℕ) → free c (made c (objects ks)) ≡ objects ks
  free-made none ks = ground arith
  free-made (some k) ks = ground arith

  free_both :
      (k p : ℕ) (ks : List ℕ) → free (some p) (free (some k) (objects (p ∷ k ∷ ks))) ≡ objects ks
  free_both k p ks = ground arith

  with_keys_freed :
      (k p : Option ℕ) (ks : List ℕ) → (with_keys k p (made p (made k (objects ks)))).1 ≡ objects ks
  unfolding with_keys
  with_keys_freed none p ks = free-made p ks
  with_keys_freed (some k) none ks = free-made (some k) ks
  with_keys_freed (some k) (some p) ks =
      rw (free-made (o.new_context k) (p ∷ k ∷ ks)) (free_both k p ks)

  -- Whatever OpenSSL answers, what is made is freed, once, also where it throws.
  pub x25519_shared_freed :
      (priv pub_key ks : List ℕ) → (x25519_shared priv pub_key (objects ks)).1 ≡ objects ks
  unfolding x25519_shared
  x25519_shared_freed priv pub_key ks =
      with_keys_freed (o.private_key priv) (o.public_key pub_key) ks

  with_key_freed : (k : Option ℕ) (ks : List ℕ) → (with_key k (made k (objects ks))).1 ≡ objects ks
  unfolding with_key
  with_key_freed none ks = free-made none ks
  with_key_freed (some k) ks = free-made (some k) ks

  pub x25519_public_freed : (priv ks : List ℕ) → (x25519_public priv (objects ks)).1 ≡ objects ks
  unfolding x25519_public
  x25519_public_freed priv ks = with_key_freed (o.private_key priv) ks
