-- ===== src/Noise/Rounds.antt =====
-- The loop of NoiseConn::read ends by its own test, not by the bound on its rounds (src/noise.cpp).
use wirebone_cpp.Prelude.{
  ℕ, zero, suc, ◌+◌, ◌≤◌, ◌<◌, ◌≡◌, refl, true, not, ◌||◌, Option, none, some, List, [], length,
  get_or, is_empty, ltb, ◌==◌, arith, inl, inr, Bool-cases, Option-cases,
}
use wirebone_cpp.Crypto.Primitives.{Primitives}
use wirebone_cpp.Crypto.Hkdf.{aead_open}
use wirebone_cpp.Noise.{get_be16}
use wirebone_cpp.Noise.Records.{
  NoiseConn, record_nonce, decrypt_text, decrypt_body, decrypt_one, fill,
}
use wirebone_cpp.Socket.{Socket, joined, read_full, read_loop}
use wirebone_cpp.Socket.Reading.{read_loop_sound, read_loop-le}

abbrev left_over : NoiseConn → ℕ
left_over c = length (joined c.socket.incoming)

module _ (p : Primitives) where
  decrypt_text_socket :
      (o : Option (List ℕ)) (c : NoiseConn) → (decrypt_text p o c).1.socket ≡ c.socket
  unfolding decrypt_text
  decrypt_text_socket none c = refl
  decrypt_text_socket (some sealed) c =
      elim (Option-cases (aead_open p c.rx_key (record_nonce c.rx_nonce) [] sealed)) [
        | inl e ↦ rw (e, decrypt_text)
        | inr (t, e) ↦ rw (e, decrypt_text)
      ]

  read_full-le :
      (n : ℕ) (s : Socket) → length (joined (read_full n s).1.incoming) ≤ length (joined s.incoming)
  unfolding read_full
  read_full-le n s = read_loop-le n n s.incoming

  decrypt_body-le :
      (o : Option (List ℕ)) (c : NoiseConn) → left_over (decrypt_body p o c).1 ≤ left_over c
  unfolding decrypt_body
  decrypt_body-le none c = omega arith
  decrypt_body-le (some header) c =
      let n = get_be16 header 1 in
      let s = read_full n c.socket in
      elim (Bool-cases (not (get_or header 0 0 == 4))) [
        | inl e ↦ rw e (omega arith)
        | inr e ↦ elim (Bool-cases (ltb n 16 || ltb 4093 n)) [
          | inl f ↦ rw (e, f) (omega arith)
          | inr f ↦
              rw (e, f, decrypt_text_socket s.0 (record c { socket = s.1 }))
                (read_full-le n c.socket)
        ]
      ]

  after_header :
      (c : NoiseConn) (o : Option (List ℕ)) (rest : List (List ℕ))
      → read_loop 3 3 c.socket.incoming ≡ (o, rest)
      → (let r = decrypt_body p o (record c { socket = record c.socket { incoming = rest } }) in
          r.0 ≡ true → left_over r.1 + 3 ≤ left_over c)
  unfolding decrypt_body
  after_header c none rest found e = cc
  after_header c (some header) rest found e = omega (
    arith,
    read_loop_sound 3 3 c.socket.incoming header rest found,
    decrypt_body-le (some header) (record c { socket = record c.socket { incoming = rest } }),
  )

  -- A record that was read took three bytes at least.
  decrypt_one_shrinks :
      (c : NoiseConn) → (decrypt_one p c).0 ≡ true → left_over (decrypt_one p c).1 + 3 ≤ left_over c
  unfolding decrypt_one read_full
  decrypt_one_shrinks c e = after_header c _ _ refl e

  -- With a bound above the bytes that will arrive, the loop runs as it does with any larger bound.
  pub fill_enough :
      (fuel : ℕ) (c : NoiseConn)
      → length (joined c.socket.incoming) < fuel
      → fill p (suc fuel) c ≡ fill p fuel c
  unfolding fill
  fill_enough zero c h = absurd (omega arith)
  fill_enough (suc fuel) c h = elim (Bool-cases (is_empty c.plaintext)) [
    | inr e ↦ rw e
    | inl e ↦ elim (Bool-cases (decrypt_one p c).0) [
      | inr f ↦ rw (e, f)
      | inl f ↦
          rw (e, f) (fill_enough fuel (decrypt_one p c).1 (omega (arith, decrypt_one_shrinks c f)))
    ]
  ]
