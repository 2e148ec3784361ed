-- ===== src/Noise.antt =====
-- src/noise.cpp: the Noise IK handshake of a control connection, its server and client side.
pub mod Steps
pub mod Agree
pub mod Records
pub mod Frames
pub mod Sending
pub mod Receiving
pub mod Transport
pub mod Rounds
use wirebone_cpp.Prelude.{
  ℕ, ◌+◌, ◌*◌, ◌/◌, ◌%◌, ◌^◌, Bool, true, false, not, ◌||◌, Option, none, some, List, [], ◌∷◌, ◌++◌,
  Str, codes, length, take, drop, get_or, replicate, ◌==◌, if◌then◌else◌, Outcome, ok, throws,
}
use wirebone_cpp.Prelude.Decimal.{to_string}
use wirebone_cpp.Crypto.Clamp.{generate_x25519_private}
use wirebone_cpp.Crypto.Primitives.{Primitives}
use wirebone_cpp.Crypto.Hkdf.{blake2s256, hkdf_blake2s, aead_seal, aead_open}

-- How a function of the handshake ends: `true`, `false` with an error text, or an exception.
pub data Shake {ℓ} (A : Type ℓ) : Type ℓ where
  good : A → Shake A
  failed : Str → Shake A
  threw : Shake A

infixl 5 ◌>>=◌
abbrev pub ◌>>=◌ {ℓ κ} : {A : Type ℓ} {B : Type κ} → Shake A → (A → Shake B) → Shake B
good a >>= f = f a
failed e >>= f = failed e
threw >>= f = threw

abbrev pub or_failed {ℓ} : {A : Type ℓ} → Str → Option A → Shake A
or_failed e none = failed e
or_failed e (some a) = good a

-- The client side throws where a derivation fails.
abbrev pub or_threw {ℓ} : {A : Type ℓ} → Option A → Shake A
or_threw none = threw
or_threw (some a) = good a

pub record NoiseResult : Type 0 where
  pub peer_machine_public : List ℕ
  pub protocol_version : ℕ
  pub handshake_hash : List ℕ
  pub tx_key : List ℕ
  pub rx_key : List ℕ

-- What the client keeps between its two functions.
pub record ClientState : Type 0 where
  pub ephemeral_priv : List ℕ
  pub h : List ℕ
  pub ck : List ℕ

abbrev pub put_be16 : ℕ → List ℕ
put_be16 v = (v / 2 ^ 8 % 256) ∷ (v % 256) ∷ []

-- The two bytes at an offset.
abbrev pub get_be16 : List ℕ → ℕ → ℕ
get_be16 p i = get_or p i 0 * 256 + get_or p (i + 1) 0

abbrev pub zero_nonce : List ℕ
zero_nonce = replicate 12 0

abbrev pub prologue : ℕ → Str
prologue version = codes "Tailscale Control Protocol v" ++ to_string version

module _ (c : Primitives) where
  open c use {public_key, shared}

  abbrev pub mix_hash : List ℕ → List ℕ → List ℕ
  mix_hash h message = blake2s256 c h message

  -- The new chaining key and the cipher key; `none` is `false`.
  unfoldable pub mix_dh : List ℕ → List ℕ → List ℕ → Option (List ℕ × List ℕ)
  mix_dh ck priv pub_key = elim (shared priv pub_key) [
    | none ↦ none
    | some s ↦ let out = hkdf_blake2s c s ck 64 in some (take 32 out, drop 32 out)
  ]

  -- The sealed text and the new hash; a size other than the caller's room throws.
  unfoldable pub encrypt_and_hash : List ℕ → List ℕ → ℕ → List ℕ → Shake (List ℕ × List ℕ)
  encrypt_and_hash h k room text = elim (aead_seal c k zero_nonce h text) [
    | throws e ↦ threw
    | ok sealed ↦ if length sealed == room then good (sealed, mix_hash h sealed) else threw
  ]

  unfoldable pub decrypt_and_hash : List ℕ → List ℕ → ℕ → List ℕ → Option (List ℕ × List ℕ)
  decrypt_and_hash h k room sealed = elim (aead_open c k zero_nonce h sealed) [
    | none ↦ none
    | some text ↦ if length text == room then some (text, mix_hash h sealed) else none
  ]

  -- `c1` and `c2`. The derivation cannot fail here.
  unfoldable pub split_keys : List ℕ → List ℕ × List ℕ
  split_keys ck = let out = hkdf_blake2s c [] ck 64 in (take 32 out, drop 32 out)

  unfoldable pub initial_hash : List ℕ
  initial_hash = blake2s256 c (codes "Noise_IK_25519_ChaChaPoly_BLAKE2s") []

  -- The hash before the ephemeral key of the client.
  unfoldable pub start_hash : ℕ → List ℕ → List ℕ
  start_hash version control_public =
      mix_hash (mix_hash initial_hash (prologue version)) control_public

  -- The checks of noise_server_handshake on the initiation.
  unfoldable pub check_initiation : List ℕ → Shake (Unit {0})
  check_initiation init =
      if not (length init == 101)
      then failed (codes "wrong handshake initiation size")
      else if not (get_or init 2 0 == 1)
      then failed (codes "unexpected handshake message type")
      else if not (get_be16 init 3 == 96)
      then failed (codes "wrong handshake initiation length")
      else good tt

  -- From the checks to the tag: the client's two keys, the chaining key and the hash.
  unfoldable pub read_initiation : List ℕ → List ℕ → Shake (List ℕ × List ℕ × List ℕ × List ℕ)
  read_initiation control_private init = do
    checked ← check_initiation init
    let body = drop 5 init
    let machine_eph = take 32 body
    let h = mix_hash (start_hash (get_be16 init 0) (public_key control_private)) machine_eph
    (ck1, k1) ← or_failed (codes "computing es") (mix_dh initial_hash control_private machine_eph)
    (machine_key, h1) ←
        or_failed (codes "decrypting machine key")
          (decrypt_and_hash h k1 32 (take 48 (drop 32 body)))
    (ck2, k2) ← or_failed (codes "computing ss") (mix_dh ck1 control_private machine_key)
    (nothing, h2) ←
        or_failed (codes "decrypting initiation tag")
          (decrypt_and_hash h1 k2 0 (take 16 (drop 48 (drop 32 body))))
    good (machine_eph, machine_key, ck2, h2)

  -- From the server's ephemeral key to the end.
  unfoldable pub write_response :
      ℕ → List ℕ → List ℕ × List ℕ × List ℕ × List ℕ → Shake (List ℕ × NoiseResult)
  write_response version control_eph (machine_eph, machine_key, ck, h) = do
    let eph_pub = public_key control_eph
    (ck1, k1) ← or_failed (codes "computing ee") (mix_dh ck control_eph machine_eph)
    (ck2, k2) ← or_failed (codes "computing se") (mix_dh ck1 control_eph machine_key)
    (tag, h1) ← encrypt_and_hash (mix_hash h eph_pub) k2 16 []
    let keys = split_keys ck2
    good (
      2 ∷ put_be16 48 ++ (eph_pub ++ tag),
      record {
        peer_machine_public = machine_key;
        protocol_version = version;
        handshake_hash = h1;
        tx_key = keys.1;
        rx_key = keys.0;
      },
    )

  -- `raw` are the random bytes of the ephemeral key.
  unfoldable pub noise_server_handshake : List ℕ → List ℕ → List ℕ → Shake (List ℕ × NoiseResult)
  noise_server_handshake raw control_private init = do
    read ← read_initiation control_private init
    write_response (get_be16 init 0) (generate_x25519_private raw) read

  unfoldable pub noise_client_init : List ℕ → List ℕ → List ℕ → ℕ → Shake (List ℕ × ClientState)
  noise_client_init raw machine_private control_public version = do
    let eph = generate_x25519_private raw
    let eph_pub = public_key eph
    let h = mix_hash (start_hash version control_public) eph_pub
    (ck1, k1) ← or_threw (mix_dh initial_hash eph control_public)
    (sealed, h1) ← encrypt_and_hash h k1 48 (public_key machine_private)
    (ck2, k2) ← or_threw (mix_dh ck1 machine_private control_public)
    (tag, h2) ← encrypt_and_hash h1 k2 16 []
    good (
      put_be16 version ++ (1 ∷ put_be16 96 ++ (eph_pub ++ (sealed ++ tag))),
      record { ephemeral_priv = eph; h = h2; ck = ck2 },
    )

  -- The caller's result is zeroed; its `peer_machine_public` is not written.
  unfoldable pub noise_client_finish : List ℕ → ClientState → List ℕ → Shake NoiseResult
  noise_client_finish machine_private s response =
      if not (length response == 51)
        || (not (get_or response 0 0 == 2) || not (get_be16 response 1 == 48))
      then failed (codes "bad handshake response")
      else do
        let eph_pub = take 32 (drop 3 response)
        (ck1, k1) ← or_failed (codes "computing ee") (mix_dh s.ck s.ephemeral_priv eph_pub)
        (ck2, k2) ← or_failed (codes "computing se") (mix_dh ck1 machine_private eph_pub)
        (nothing, h1) ←
            or_failed (codes "decrypting payload")
              (decrypt_and_hash (mix_hash s.h eph_pub) k2 0 (take 16 (drop 32 (drop 3 response))))
        let keys = split_keys ck2
        good (record {
          peer_machine_public = replicate 32 0;
          protocol_version = 0;
          handshake_hash = h1;
          tx_key = keys.0;
          rx_key = keys.1;
        })
