-- ===== src/Noise/Records.antt =====
-- src/noise.cpp: class NoiseConn, the records of a connection after its handshake.
use wirebone_cpp.Prelude.{
  ℕ, zero, suc, ◌+◌, ◌/◌, ◌%◌, ◌^◌, Bool, true, false, not, ◌||◌, Option, none, some, List, [], ◌∷◌,
  ◌++◌, ℤ, pos, negsuc, length, take, drop, get_or, replicate, is_empty, min, ltb, ◌==◌,
  if◌then◌else◌, Outcome, ok, throws,
}
use wirebone_cpp.Crypto.Primitives.{Primitives}
use wirebone_cpp.Crypto.Hkdf.{aead_seal, aead_open}
use wirebone_cpp.Noise.{put_be16, get_be16}
use wirebone_cpp.Socket.{Socket, joined, read_full, write_full}

pub record NoiseConn : Type 0 where
  pub socket : Socket
  pub tx_key : List ℕ
  pub rx_key : List ℕ
  pub tx_nonce : ℕ
  pub rx_nonce : ℕ
  pub plaintext : List ℕ

unfoldable pub put_be64 : ℕ → List ℕ
put_be64 v =
    (v / 2 ^ 56 % 256)
    ∷ (v / 2 ^ 48 % 256)
    ∷ (v / 2 ^ 40 % 256)
    ∷ (v / 2 ^ 32 % 256)
    ∷ (v / 2 ^ 24 % 256)
    ∷ (v / 2 ^ 16 % 256)
    ∷ (v / 2 ^ 8 % 256)
    ∷ (v % 256)
    ∷ []

-- The 12 bytes for the counter of a record.
unfoldable pub record_nonce : ℕ → List ℕ
record_nonce counter = replicate 4 0 ++ put_be64 counter

abbrev pub next_nonce : ℕ → ℕ
next_nonce counter = (counter + 1) % 2 ^ 64

-- `kMaxPlaintext`
abbrev pub max_plaintext : ℕ
max_plaintext = 4077

module _ (p : Primitives) where
  -- The record's text, `none` where the read of it failed.
  unfoldable pub decrypt_text : Option (List ℕ) → NoiseConn → Bool × NoiseConn
  decrypt_text none c = (false, c)
  decrypt_text (some sealed) c = elim (aead_open p c.rx_key (record_nonce c.rx_nonce) [] sealed) [
    | none ↦ (false, c)
    | some text ↦
        (true, record c { rx_nonce = next_nonce c.rx_nonce; plaintext = c.plaintext ++ text })
  ]

  unfoldable pub decrypt_body : Option (List ℕ) → NoiseConn → Bool × NoiseConn
  decrypt_body none c = (false, c)
  decrypt_body (some header) c =
      if not (get_or header 0 0 == 4)
      then (false, c)
      else if ltb (get_be16 header 1) 16 || ltb 4093 (get_be16 header 1)
      then (false, c)
      else let (sealed, s) = read_full (get_be16 header 1) c.socket in
        decrypt_text sealed (record c { socket = s })

  unfoldable pub decrypt_one : NoiseConn → Bool × NoiseConn
  decrypt_one c =
      let (header, s) = read_full 3 c.socket in decrypt_body header (record c { socket = s })

  -- The loop of `read`: whether there is plaintext. Each round that goes on has read three bytes at
  -- least, so the bytes that will arrive are fuel enough.
  unfoldable pub fill : ℕ → NoiseConn → Bool × NoiseConn
  fill zero c = (not (is_empty c.plaintext), c)
  fill (suc fuel) c =
      let (found, d) = decrypt_one c in
      let rest = fill fuel d in
      if is_empty c.plaintext then (if found then rest else (false, d)) else (true, c)

  abbrev pub take_out : ℕ → Bool × NoiseConn → List ℕ × NoiseConn
  take_out n (false, c) = ([], c)
  take_out n (true, c) =
      let size = min n (length c.plaintext) in
      (take size c.plaintext, record c { plaintext = drop size c.plaintext })

  -- The bytes that are put into the buffer; their number is the result.
  unfoldable pub read : ℕ → NoiseConn → List ℕ × NoiseConn
  read n c = if n == 0 then ([], c) else take_out n (fill (length (joined c.socket.incoming) + 1) c)

  -- Header and text of a record; the text is not sent where the header was not.
  unfoldable pub write_record : List ℕ → NoiseConn → Bool × NoiseConn
  write_record sealed c =
      let (r, s) = write_full (4 ∷ put_be16 (length sealed % 2 ^ 16)) c.socket in
      let (q, t) = write_full sealed s in
      if r then (q, record c { socket = t }) else (false, record c { socket = s })

  -- The loop of `write`, with `sent` bytes done and `bytes` to go; each round takes one at least.
  unfoldable pub write_rounds : ℕ → List ℕ → ℕ → NoiseConn → Outcome ℤ × NoiseConn
  write_rounds fuel [] sent c = (ok (pos sent), c)
  write_rounds zero (b ∷ bytes) sent c = (ok (pos sent), c)
  write_rounds (suc fuel) (b ∷ bytes) sent c =
      elim (aead_seal p c.tx_key (record_nonce c.tx_nonce) [] (take max_plaintext (b ∷ bytes))) [
        | throws e ↦ (throws e, c)
        | ok sealed ↦
            let (done, d) = write_record sealed (record c { tx_nonce = next_nonce c.tx_nonce }) in
            let chunk = min max_plaintext (length (b ∷ bytes)) in
            let rest = write_rounds fuel (drop max_plaintext (b ∷ bytes)) (sent + chunk) d in
            if done then rest else (ok (if sent == 0 then negsuc 0 else pos sent), d)
      ]

  unfoldable pub write : List ℕ → NoiseConn → Outcome ℤ × NoiseConn
  write bytes c = write_rounds (length bytes) bytes 0 c
