-- ===== src/Crypto/Hkdf.antt =====
-- blake2s256 of two spans, hmac_blake2s, hkdf_blake2s, aead_seal and aead_open (src/crypto.cpp).
use Prim.Native.Nat.{bit_xor}
use wirebone_cpp.Prelude.{
  ℕ, zero, suc, ◌+◌, ◌-◌, ◌%◌, ◌≡◌, ◌≤◌, not, ◌||◌, Option, none, List, [], ◌∷◌, ◌++◌, map, min,
  length, take, replicate, ltb, ◌==◌, if◌then◌else◌, Outcome, ok, throws, Fault, arith,
  length-append, length-take, Bool-cases, inl, inr,
}
use wirebone_cpp.Crypto.Primitives.{Primitives}

module _ (c : Primitives) where
  open c use {blake2s, seal, unseal, length-blake2s}

  unfoldable pub blake2s256 : List ℕ → List ℕ → List ℕ
  blake2s256 a b = blake2s (a ++ b)

  -- The key, or its digest, filled up with zeros to the 64 bytes of a block.
  abbrev pub key_block : List ℕ → List ℕ
  key_block key =
      if ltb 64 (length key)
      then blake2s key ++ replicate 32 0
      else key ++ replicate (64 - length key) 0

  unfoldable pub hmac_blake2s : List ℕ → List ℕ → List ℕ
  hmac_blake2s key message =
      let pad = key_block key in
      let inner = blake2s (map (λ b. bit_xor b 0x36) pad ++ message) in
      blake2s (map (λ b. bit_xor b 0x5c) pad ++ inner)

  -- The loop of `hkdf_blake2s`: `off` bytes of `size` are written, `prev` is empty at first. The
  -- result is what is written from `off` on.
  unfoldable pub hkdf_loop : ℕ → ℕ → List ℕ → ℕ → List ℕ → ℕ → List ℕ
  hkdf_loop zero size prk off prev counter = []
  hkdf_loop (suc fuel) size prk off prev counter =
      let block = hmac_blake2s prk (prev ++ counter ∷ []) in
      let n = min 32 (size - off) in
      let rest = hkdf_loop fuel size prk (off + n) block ((counter + 1) % 256) in
      if ltb off size then take n block ++ rest else []

  -- Each round writes a byte at least, so `size` rounds are enough.
  unfoldable pub hkdf_blake2s : List ℕ → List ℕ → ℕ → List ℕ
  hkdf_blake2s ikm salt size = hkdf_loop size size (hmac_blake2s salt ikm) 0 [] 1

  unfoldable pub aead_seal : List ℕ → List ℕ → List ℕ → List ℕ → Outcome (List ℕ)
  aead_seal key nonce ad text =
      if not (length nonce == 12) then throws Fault.runtime_error else ok (seal key nonce ad text)

  unfoldable pub aead_open : List ℕ → List ℕ → List ℕ → List ℕ → Option (List ℕ)
  aead_open key nonce ad sealed =
      if not (length nonce == 12) || ltb (length sealed) 16
      then none
      else unseal key nonce ad sealed

  length-hmac_blake2s : (key message : List ℕ) → length (hmac_blake2s key message) ≡ 32
  unfolding hmac_blake2s
  length-hmac_blake2s key message = length-blake2s _

  length-hkdf_loop :
      (fuel size : ℕ) (prk : List ℕ) (off : ℕ) (prev : List ℕ) (counter : ℕ)
      → size ≤ off + fuel
      → length (hkdf_loop fuel size prk off prev counter) ≡ size - off
  unfolding hkdf_loop
  length-hkdf_loop zero size prk off prev counter h = omega arith
  length-hkdf_loop (suc fuel) size prk off prev counter h =
      let block = hmac_blake2s prk (prev ++ counter ∷ []) in
      let n = min 32 (size - off) in
      let rest = hkdf_loop fuel size prk (off + n) block ((counter + 1) % 256) in
      elim (Bool-cases (ltb off size)) [
        | inr over ↦ rw over (ground arith)
        | inl more ↦ rw more (
            ground (
              arith,
              length-append (take n block) rest,
              length-take n block,
              length-hmac_blake2s prk (prev ++ counter ∷ []),
              length-hkdf_loop fuel size prk (off + n) block ((counter + 1) % 256),
            ))
      ]

  -- The loop of `hkdf_blake2s` ends with every byte of the output written, for any size.
  pub length-hkdf_blake2s :
      (ikm salt : List ℕ) (size : ℕ) → length (hkdf_blake2s ikm salt size) ≡ size
  unfolding hkdf_blake2s
  length-hkdf_blake2s ikm salt size =
      omega (arith, length-hkdf_loop size size (hmac_blake2s salt ikm) 0 [] 1)
