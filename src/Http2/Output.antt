-- ===== src/Http2/Output.antt =====
-- What the server hands to nghttp2 when it sends: send_cb of src/http2_session.cpp over
-- NoiseConn::write of src/noise.cpp.
use wirebone_cpp.Prelude.{
  ℕ, zero, suc, ◌+◌, ◌^◌, ◌<◌, ◌≤◌, ap, to_i32, to_i32-pos, pos_part, ◌≡◌, ◌⊎◌, refl, sym, ◌∙◌,
  arith, inl, inr, false, List, [], ◌∷◌, length, drop, take, length-drop, min, ℤ, pos, negsuc,
  Outcome, ok, throws, ◌==◌, Bool-cases, if◌then◌else◌,
}
use wirebone_cpp.Crypto.Primitives.{Primitives}
use wirebone_cpp.Noise.Frames.{sealed_text}
use wirebone_cpp.Noise.Sending.{write_round}
use wirebone_cpp.Noise.Records.{
  NoiseConn, max_plaintext, next_nonce, write_record, write_rounds, write,
}

-- `NGHTTP2_ERR_CALLBACK_FAILURE`, `NGHTTP2_ERR_WOULDBLOCK`, or the number of bytes that were sent.
pub data Sent : Type 0 where
  callback_failure would_block : Sent
  wrote : ℕ → Sent

unfoldable pub sent_of : ℤ → Sent
sent_of (negsuc n) = callback_failure
sent_of (pos n) = if n == 0 then would_block else wrote n

abbrev pub answered : Outcome ℤ × NoiseConn → Outcome Sent × NoiseConn
answered (throws e, c) = (throws e, c)
answered (ok n, c) = (ok (sent_of n), c)

-- The length is cast to an int; a negative one is no byte to write.
unfoldable pub send_cb : Primitives → List ℕ → NoiseConn → Outcome Sent × NoiseConn
send_cb p bytes c =
    let n = to_i32 (pos (length bytes)) in answered (write p (take (pos_part n) bytes) c)

take_all : {A : Type 0} (xs : List A) → take (length xs) xs ≡ xs
take_all [] = refl
take_all (x ∷ xs) = ap (λ t. x ∷ t) (take_all xs)

module _ (p : Primitives) where
  -- A failure before the first byte, or a number of bytes between two.
  abbrev Between : ℕ → ℕ → ℤ → Type 0
  Between low high r = (r ≡ negsuc 0) ⊎ ((n : ℕ) × (r ≡ pos n) × (low ≤ n) × (n ≤ high))

  -- What is answered where a record could not be sent.
  stopped-Between :
      (sent high : ℕ) → sent ≤ high → Between sent high (if sent == 0 then negsuc 0 else pos sent)
  stopped-Between sent high h = elim (Bool-cases (sent == 0)) [
    | inl e ↦ rw e (inl refl)
    | inr e ↦ rw e (inr (sent, refl, omega arith, h))
  ]

  Between-wider :
      (low low_else high high_else : ℕ) (r : ℤ)
      → low ≤ low_else
      → high_else ≤ high
      → Between low_else high_else r
      → Between low high r
  Between-wider low low_else high high_else r h k (inl e) = inl e
  Between-wider low low_else high high_else r h k (inr (n, e, from, to)) =
      inr (n, e, omega arith, omega arith)

  ended : (c d : NoiseConn) (r s : ℤ) → ◌≡◌ {A = Outcome ℤ × NoiseConn} (ok s, c) (ok r, d) → r ≡ s
  ended c d r s e = cc

  write_rounds-Between :
      (fuel : ℕ) (bytes : List ℕ) (sent : ℕ) (c d : NoiseConn) (r : ℤ)
      → write_rounds p fuel bytes sent c ≡ (ok r, d)
      → Between sent (sent + length bytes) r
  unfolding write_rounds
  write_rounds-Between fuel [] sent c d r e =
      inr (sent, ended c d r (pos sent) e, omega arith, omega arith)
  write_rounds-Between zero (b ∷ bytes) sent c d r e =
      inr (sent, ended c d r (pos sent) e, omega arith, omega arith)
  write_rounds-Between (suc fuel) (b ∷ bytes) sent c d r e =
      let chunk = min max_plaintext (length (b ∷ bytes)) in
      let rest = length-drop max_plaintext (b ∷ bytes) in
      let out =
        write_record p (sealed_text p c.tx_key c.tx_nonce (take max_plaintext (b ∷ bytes)))
          (record c { tx_nonce = next_nonce c.tx_nonce }) in
      let step = sym (write_round p fuel b bytes sent c) ∙ e in
      elim (Bool-cases out.0) [
        | inl done ↦
            Between-wider sent (sent + chunk) (sent + length (b ∷ bytes))
              (sent + chunk + length (drop max_plaintext (b ∷ bytes))) r (omega arith)
              (omega (arith, rest))
              (write_rounds-Between fuel (drop max_plaintext (b ∷ bytes)) (sent + chunk) out.1 d r
                (rw done at step))
        | inr failed ↦
            rw (ended out.1 d r (if sent == 0 then negsuc 0 else pos sent) (rw failed at step))
              (stopped-Between sent (sent + length (b ∷ bytes)) (omega arith))
      ]

  -- The first round of a call with bytes to send.
  first_round :
      (fuel : ℕ) (b : ℕ) (bytes : List ℕ) (c d : NoiseConn) (r : ℤ)
      → write_rounds p (suc fuel) (b ∷ bytes) 0 c ≡ (ok r, d)
      → Between 1 (length (b ∷ bytes)) r
  first_round fuel b bytes c d r e =
      let chunk = min max_plaintext (length (b ∷ bytes)) in
      let rest = length-drop max_plaintext (b ∷ bytes) in
      let out =
        write_record p (sealed_text p c.tx_key c.tx_nonce (take max_plaintext (b ∷ bytes)))
          (record c { tx_nonce = next_nonce c.tx_nonce }) in
      let step = sym (write_round p fuel b bytes 0 c) ∙ e in
      elim (Bool-cases out.0) [
        | inl done ↦
            Between-wider 1 (0 + chunk) (length (b ∷ bytes))
              (0 + chunk + length (drop max_plaintext (b ∷ bytes))) r (omega arith)
              (omega (arith, rest))
              (write_rounds-Between fuel (drop max_plaintext (b ∷ bytes)) (0 + chunk) out.1 d r
                (rw done at step))
        | inr failed ↦ inl (ended out.1 d r (negsuc 0) (rw failed at step))
      ]

  -- What send_cb tells nghttp2 of bytes that it was given.
  abbrev pub Told : ℕ → Sent → Type 0
  Told size s = (s ≡ callback_failure) ⊎ ((n : ℕ) × (s ≡ wrote n) × (1 ≤ n) × (n ≤ size))

  Between-Told : (size : ℕ) (r : ℤ) → Between 1 size r → Told size (sent_of r)
  unfolding sent_of
  Between-Told size r (inl e) = rw e (inl refl)
  Between-Told size r (inr (n, e, from, to)) =
      let some_sent : (n == 0) ≡ false = ground arith in rw (e, some_sent) (inr (n, refl, from, to))

  told :
      (size : ℕ) (q : Outcome ℤ × NoiseConn) (s : Sent) (d : NoiseConn)
      → ((r : ℤ) → q ≡ (ok r, q.1) → Between 1 size r)
      → answered q ≡ (ok s, d)
      → Told size s
  unfolding sent_of
  told size (throws f, c) s d h e = cc
  told size (ok r, c) s d h e =
      let same : sent_of r ≡ s = cc in rw (← same) (Between-Told size r (h r refl))

  send_cb_whole :
      (bytes : List ℕ) (c : NoiseConn)
      → length bytes < 2 ^ 31
      → send_cb p bytes c ≡ answered (write p bytes c)
  unfolding send_cb
  send_cb_whole bytes c small =
      ap (λ t. answered (write p t c))
        (ap (λ z. take (pos_part z) bytes) (to_i32-pos (length bytes) small) ∙ take_all bytes)

  -- Given a byte or more, and less than 2 ^ 31 bytes, a send_cb that returns reports a failure, or that it wrote one byte at
  -- least and no more than it was given: never that it would block, which would have nghttp2 wait.
  pub send_cb-Told :
      (b : ℕ) (bytes : List ℕ) (c d : NoiseConn) (s : Sent)
      → length (b ∷ bytes) < 2 ^ 31
      → send_cb p (b ∷ bytes) c ≡ (ok s, d)
      → Told (length (b ∷ bytes)) s
  unfolding write
  send_cb-Told b bytes c d s small e =
      told (length (b ∷ bytes)) (write p (b ∷ bytes) c) s d
        (λ r. first_round (length bytes) b bytes c (write p (b ∷ bytes) c).1 r)
        (sym (send_cb_whole (b ∷ bytes) c small) ∙ e)
