-- ===== src/Noise/Frames.antt =====
-- Records on the wire, and that decrypt_one reads one in whatever pieces it arrives (src/noise.cpp).
use wirebone_cpp.Prelude.{
  ℕ, ◌+◌, ◌%◌, ◌^◌, ◌≤◌, ◌<◌, ◌≡◌, refl, true, false, some, List, [], ◌∷◌, ◌++◌, All, length, ltb,
  arith,
}
use wirebone_cpp.Crypto.Primitives.{Primitives}
use wirebone_cpp.Crypto.Hkdf.{aead_open}
use wirebone_cpp.Noise.{put_be16, get_be16}
use wirebone_cpp.Noise.Records.{
  NoiseConn, put_be64, record_nonce, next_nonce, decrypt_text, decrypt_body, decrypt_one,
}
use wirebone_cpp.Socket.{Socket, joined, read_full}
use wirebone_cpp.Socket.Reading.{Full, read_loop_lem}

module _ (p : Primitives) where
  open p use {seal, unseal-seal, length-seal}

  -- The bytes of a record of that key and counter.
  abbrev pub sealed_text : List ℕ → ℕ → List ℕ → List ℕ
  sealed_text key counter text = seal key (record_nonce counter) [] text

  abbrev pub frame : List ℕ → ℕ → List ℕ → List ℕ
  frame key counter text =
      (4 ∷ put_be16 (length (sealed_text key counter text) % 2 ^ 16))
      ++ sealed_text key counter text

  abbrev pub frames : List ℕ → ℕ → List (List ℕ) → List ℕ
  frames key counter [] = []
  frames key counter (t ∷ ts) = frame key counter t ++ frames key (next_nonce counter) ts

  abbrev with_incoming : NoiseConn → List (List ℕ) → NoiseConn
  with_incoming c rest = record c { socket = record c.socket { incoming = rest } }

  abbrev with_text : NoiseConn → List ℕ → NoiseConn
  with_text c text = record c { rx_nonce = next_nonce c.rx_nonce; plaintext = c.plaintext ++ text }

  opened :
      (key : List ℕ) (counter : ℕ) (text : List ℕ)
      → aead_open p key (record_nonce counter) [] (sealed_text key counter text) ≡ some text
  unfolding aead_open record_nonce put_be64
  opened key counter text =
      let long : ltb (length (sealed_text key counter text)) 16 ≡ false =
        ground (arith, length-seal key (record_nonce counter) [] text) in
      rw (long, unseal-seal key (record_nonce counter) [] text)

  decrypt_text_lem :
      (c : NoiseConn) (text : List ℕ)
      → decrypt_text p (some (sealed_text c.rx_key c.rx_nonce text)) c ≡ (true, with_text c text)
  unfolding decrypt_text
  decrypt_text_lem c text = rw (opened c.rx_key c.rx_nonce text, decrypt_text)

  read_full_lem :
      (s : Socket) (bytes tail : List ℕ) (n : ℕ)
      → length bytes ≡ n
      → All Full s.incoming
      → joined s.incoming ≡ bytes ++ tail
      → (rest : List (List ℕ)) × (read_full n s ≡ (some bytes, record s { incoming = rest }))
        × (joined rest ≡ tail)
        × All Full rest
  unfolding read_full
  read_full_lem s bytes tail n len full e =
      let (rest, done, later, full') =
        read_loop_lem n n s.incoming bytes tail (omega arith) full len e in
      (rest, rw done, later, full')

  size_field : (n : ℕ) → n < 2 ^ 16 → get_be16 (4 ∷ put_be16 (n % 2 ^ 16)) 1 ≡ n
  size_field n h = omega arith

  decrypt_body_lem :
      (c : NoiseConn) (text tail : List ℕ)
      → length text ≤ 4077
      → All Full c.socket.incoming
      → joined c.socket.incoming ≡ sealed_text c.rx_key c.rx_nonce text ++ tail
      → (rest : List (List ℕ)) × (decrypt_body p
            (some (4 ∷ put_be16 (length (sealed_text c.rx_key c.rx_nonce text) % 2 ^ 16)))
            c
          ≡ (true, with_text (with_incoming c rest) text))
        × (joined rest ≡ tail)
        × All Full rest
  unfolding decrypt_body
  decrypt_body_lem c text tail short full e =
      let sealed = sealed_text c.rx_key c.rx_nonce text in
      let len : length sealed ≡ length text + 16 =
        length-seal c.rx_key (record_nonce c.rx_nonce) [] text in
      let field : get_be16 (4 ∷ put_be16 (length sealed % 2 ^ 16)) 1 ≡ length sealed =
        size_field (length sealed) (omega arith) in
      let low : ltb (length sealed) 16 ≡ false = ground arith in
      let high : ltb 4093 (length sealed) ≡ false = ground arith in
      let (rest, done, later, full') =
        read_full_lem c.socket sealed tail (length sealed) refl full e in
      (
        rest,
        rw (field, low, high, done) (decrypt_text_lem (with_incoming c rest) text),
        later,
        full',
      )

  -- The next record is taken off the wire and its text put behind the plaintext.
  pub decrypt_one_lem :
      (c : NoiseConn) (text tail : List ℕ)
      → length text ≤ 4077
      → All Full c.socket.incoming
      → joined c.socket.incoming ≡ frame c.rx_key c.rx_nonce text ++ tail
      → (rest : List (List ℕ)) × (decrypt_one p c ≡ (true, with_text (with_incoming c rest) text))
        × (joined rest ≡ tail)
        × All Full rest
  unfolding decrypt_one
  decrypt_one_lem c text tail short full e =
      let sealed = sealed_text c.rx_key c.rx_nonce text in
      let header = 4 ∷ put_be16 (length sealed % 2 ^ 16) in
      let (left, done, later, full') =
        read_full_lem c.socket header (sealed ++ tail) 3 refl full e in
      let (rest, body, after, full'') =
        decrypt_body_lem (with_incoming c left) text tail short full' later in
      (rest, rw done body, after, full'')
