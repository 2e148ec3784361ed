-- ===== src/Noise/Steps.antt =====
-- The steps of a handshake on secrets that are known (src/noise.cpp).
use wirebone_cpp.Prelude.{
  ℕ, ◌≡◌, ◌+◌, ◌∙◌, true, false, some, List, length, take, drop, ==_iff, ◌==◌, arith, ltb,
}
use wirebone_cpp.Crypto.Primitives.{Primitives}
use wirebone_cpp.Crypto.Hkdf.{hkdf_blake2s, aead_seal, aead_open}
use wirebone_cpp.Noise.{good, zero_nonce, mix_hash, mix_dh, encrypt_and_hash, decrypt_and_hash}

module _ (c : Primitives) where
  open c use {shared, seal, unseal-seal, length-seal}

  -- The keys that a shared secret gives.
  abbrev pub next_ck : List ℕ → List ℕ → List ℕ
  next_ck s ck = take 32 (hkdf_blake2s c s ck 64)

  abbrev pub next_k : List ℕ → List ℕ → List ℕ
  next_k s ck = drop 32 (hkdf_blake2s c s ck 64)

  pub mix_dh-shared :
      (ck priv pub_key s : List ℕ)
      → shared priv pub_key ≡ some s
      → mix_dh c ck priv pub_key ≡ some (next_ck s ck, next_k s ck)
  unfolding mix_dh
  mix_dh-shared ck priv pub_key s e = rw (e, mix_dh)

  pub encrypt_and_hash_lem :
      (h k text : List ℕ) (room : ℕ)
      → length text + 16 ≡ room
      → encrypt_and_hash c h k room text
        ≡ good (seal k zero_nonce h text, mix_hash c h (seal k zero_nonce h text))
  unfolding encrypt_and_hash aead_seal
  encrypt_and_hash_lem h k text room e =
      let fits : (length (seal k zero_nonce h text) == room) ≡ true =
        (==_iff _ room).1 (length-seal k zero_nonce h text ∙ e) in
      rw fits

  opened_text :
      (h k text : List ℕ)
      → ltb (length (seal k zero_nonce h text)) 16 ≡ false
      → aead_open c k zero_nonce h (seal k zero_nonce h text) ≡ some text
  unfolding aead_open
  opened_text h k text long = rw (long, unseal-seal k zero_nonce h text)

  pub decrypt_and_hash_lem :
      (h k text : List ℕ) (room : ℕ)
      → length text ≡ room
      → decrypt_and_hash c h k room (seal k zero_nonce h text)
        ≡ some (text, mix_hash c h (seal k zero_nonce h text))
  unfolding decrypt_and_hash
  decrypt_and_hash_lem h k text room e =
      let fits : (length text == room) ≡ true = (==_iff (length text) room).1 e in
      let long : ltb (length (seal k zero_nonce h text)) 16 ≡ false =
        ground (arith, length-seal k zero_nonce h text) in
      let opened : aead_open c k zero_nonce h (seal k zero_nonce h text) ≡ some text =
        opened_text h k text long in
      rw (opened, decrypt_and_hash, fits)
