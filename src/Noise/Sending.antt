-- ===== src/Noise/Sending.antt =====
-- What NoiseConn::write has put on the wire when it returns the size of its input (src/noise.cpp).
use wirebone_cpp.Prelude.{
  ℕ, zero, suc, ◌+◌, ◌%◌, ◌^◌, ◌≤◌, ◌<◌, ◌≡◌, ◌≢◌, refl, sym, ap, ◌∙◌, Bool, true, List, [], ◌∷◌,
  ◌++◌, append-nil, append_assoc, All, ℤ, pos, negsuc, length, take, drop, take-append-drop,
  length-take, length-drop, min, ◌==◌, if◌then◌else◌, Outcome, ok, arith, inl, inr, Bool-cases,
}
use wirebone_cpp.Crypto.Primitives.{Primitives}
use wirebone_cpp.Crypto.Hkdf.{aead_seal}
use wirebone_cpp.Noise.{put_be16}
use wirebone_cpp.Noise.Records.{
  NoiseConn, put_be64, record_nonce, next_nonce, max_plaintext, write_record, write_rounds,
}
use wirebone_cpp.Noise.Frames.{frame, frames, sealed_text}
use wirebone_cpp.Socket.{Socket, joined, write_full, write_loop}
use wirebone_cpp.Socket.Writing.{write_loop_lem}

-- The texts of the records for some bytes.
pub pieces_of : ℕ → List ℕ → List (List ℕ)
pieces_of fuel [] = []
pieces_of zero (b ∷ bytes) = []
pieces_of (suc fuel) (b ∷ bytes) =
    take max_plaintext (b ∷ bytes) ∷ pieces_of fuel (drop max_plaintext (b ∷ bytes))

-- A text that `write` seals.
abbrev pub FitsRecord : List ℕ → Type 0
FitsRecord t = (0 < length t) × (length t ≤ 4077)

pub joined-pieces_of :
    (fuel : ℕ) (bytes : List ℕ) → length bytes ≤ fuel → joined (pieces_of fuel bytes) ≡ bytes
unfolding pieces_of
joined-pieces_of fuel [] h = refl
joined-pieces_of zero (b ∷ bytes) h = absurd (omega arith)
joined-pieces_of (suc fuel) (b ∷ bytes) h =
    ap (λ t. take max_plaintext (b ∷ bytes) ++ t)
      (joined-pieces_of fuel (drop max_plaintext (b ∷ bytes))
        (omega (arith, length-drop max_plaintext (b ∷ bytes))))
    ∙ take-append-drop max_plaintext (b ∷ bytes)

pub pieces_of-FitsRecord : (fuel : ℕ) (bytes : List ℕ) → All FitsRecord (pieces_of fuel bytes)
unfolding pieces_of
pieces_of-FitsRecord fuel [] = tt
pieces_of-FitsRecord zero (b ∷ bytes) = tt
pieces_of-FitsRecord (suc fuel) (b ∷ bytes) = (
  omega (arith, length-take max_plaintext (b ∷ bytes)),
  pieces_of-FitsRecord fuel (drop max_plaintext (b ∷ bytes)),
)

-- The counter after some records.
abbrev pub advanced : ℕ → List (List ℕ) → ℕ
advanced counter [] = counter
advanced counter (t ∷ ts) = advanced (next_nonce counter) ts

pub advanced-append :
    (counter : ℕ) (ts us : List (List ℕ))
    → advanced counter (ts ++ us) ≡ advanced (advanced counter ts) us
advanced-append counter [] us = refl
advanced-append counter (t ∷ ts) us = advanced-append (next_nonce counter) ts us

module _ (p : Primitives) where
  pub frames-append :
      (key : List ℕ) (counter : ℕ) (ts us : List (List ℕ))
      → frames p key counter (ts ++ us)
        ≡ frames p key counter ts ++ frames p key (advanced counter ts) us
  frames-append key counter [] us = refl
  frames-append key counter (t ∷ ts) us =
      ap (λ x. frame p key counter t ++ x) (frames-append key (next_nonce counter) ts us)
      ∙ sym (
          append_assoc (frame p key counter t) (frames p key (next_nonce counter) ts)
            (frames p key (advanced (next_nonce counter) ts) us))

  sealed_ok :
      (key : List ℕ) (counter : ℕ) (text : List ℕ)
      → aead_seal p key (record_nonce counter) [] text ≡ ok (sealed_text p key counter text)
  unfolding aead_seal record_nonce put_be64
  sealed_ok key counter text = refl

  write_full_sent :
      (bytes : List ℕ) (s : Socket)
      → (write_full bytes s).0 ≡ true
      → (write_full bytes s).1.sent ≡ s.sent ++ bytes
  unfolding write_full
  write_full_sent bytes s e =
      let (left, same, all) = write_loop_lem bytes s.room in
      ap (λ t. s.sent ++ t)
        (sym (append-nil (write_loop bytes s.room).1)
          ∙ ap (λ t. (write_loop bytes s.room).1 ++ t) (sym (all e))
          ∙ same)

  -- What a record leaves alone, and what it sends.
  abbrev Sent : NoiseConn → NoiseConn → List ℕ → Type 0
  Sent c d bytes =
      (d.tx_key ≡ c.tx_key) × (d.tx_nonce ≡ c.tx_nonce) × (d.socket.sent ≡ c.socket.sent ++ bytes)

  write_record_lem :
      (sealed : List ℕ) (c : NoiseConn)
      → (write_record p sealed c).0 ≡ true
      → Sent c (write_record p sealed c).1 ((4 ∷ put_be16 (length sealed % 2 ^ 16)) ++ sealed)
  unfolding write_record
  write_record_lem sealed c e =
      let header = 4 ∷ put_be16 (length sealed % 2 ^ 16) in
      let first = write_full header c.socket in
      elim (Bool-cases first.0) [
        | inr bad ↦ cc (rw bad at e)
        | inl good ↦
            let second : (write_full sealed first.1).0 ≡ true = rw good at e in
            rw good (
              refl,
              refl,
              write_full_sent sealed first.1 second
                  ∙ ap (λ t. t ++ sealed) (write_full_sent header c.socket good)
                  ∙ append_assoc c.socket.sent header sealed,
            )
      ]

  -- The records of some texts were sent.
  abbrev pub SentAll : NoiseConn → NoiseConn → List (List ℕ) → Type 0
  SentAll c d ts =
      (d.tx_key ≡ c.tx_key)
      × (d.tx_nonce ≡ advanced c.tx_nonce ts)
      × (d.socket.sent ≡ c.socket.sent ++ frames p c.tx_key c.tx_nonce ts)

  Sent-then :
      (c d e : NoiseConn) (text : List ℕ) (ts : List (List ℕ))
      → Sent (record c { tx_nonce = next_nonce c.tx_nonce }) d (frame p c.tx_key c.tx_nonce text)
      → SentAll d e ts
      → SentAll c e (text ∷ ts)
  Sent-then c d e text ts (key, counter, bytes) (key', counter', bytes') = (
    key' ∙ key,
    counter' ∙ ap (λ n. advanced n ts) counter,
    bytes'
        ∙ (λ i. bytes i ++ frames p (key i) (counter i) ts)
        ∙ append_assoc c.socket.sent (frame p c.tx_key c.tx_nonce text)
            (frames p c.tx_key (next_nonce c.tx_nonce) ts),
  )

  -- What `write` returns where a record was not sent.
  abbrev stopped : ℕ → Outcome ℤ
  stopped sent = ok (if sent == 0 then negsuc 0 else pos sent)

  stopped-ne : (sent k : ℕ) → 0 < k → stopped sent ≢ ok (pos (sent + k))
  stopped-ne sent k h e = ground arith

  pub write_round :
      (fuel : ℕ) (b : ℕ) (bytes : List ℕ) (sent : ℕ) (c : NoiseConn)
      → (let out =
            write_record p
              (sealed_text p c.tx_key c.tx_nonce (take max_plaintext (b ∷ bytes)))
              (record c { tx_nonce = next_nonce c.tx_nonce }) in
          write_rounds p (suc fuel) (b ∷ bytes) sent c ≡ (
            if out.0
            then write_rounds p fuel
                (drop max_plaintext (b ∷ bytes))
                (sent + min max_plaintext (length (b ∷ bytes)))
                out.1
            else (stopped sent, out.1)))
  unfolding write_rounds
  write_round fuel b bytes sent c =
      rw (sealed_ok c.tx_key c.tx_nonce (take max_plaintext (b ∷ bytes)), write_rounds)

  -- A `write` that returns the size of its input has sent the records of all of it.
  pub write_rounds_lem :
      (fuel : ℕ) (bytes : List ℕ) (sent : ℕ) (c e : NoiseConn)
      → length bytes ≤ fuel
      → write_rounds p fuel bytes sent c ≡ (ok (pos (sent + length bytes)), e)
      → SentAll c e (pieces_of fuel bytes)
  unfolding write_rounds pieces_of
  write_rounds_lem fuel [] sent c e h r =
      let same : c ≡ e = ap (λ (t : Outcome ℤ × NoiseConn). t.1) r in
      rw (← same) (refl, refl, sym (append-nil c.socket.sent))
  write_rounds_lem zero (b ∷ bytes) sent c e h r = absurd (omega arith)
  write_rounds_lem (suc fuel) (b ∷ bytes) sent c e h r =
      let text = take max_plaintext (b ∷ bytes) in
      let left = drop max_plaintext (b ∷ bytes) in
      let sealed = sealed_text p c.tx_key c.tx_nonce text in
      let d : NoiseConn = record c { tx_nonce = next_nonce c.tx_nonce } in
      let out : Bool × NoiseConn = write_record p sealed d in
      let chunk : ℕ = min max_plaintext (length (b ∷ bytes)) in
      let total : sent + length (b ∷ bytes) ≡ (sent + chunk) + length left =
        omega (arith, length-drop max_plaintext (b ∷ bytes)) in
      let step = sym (write_round fuel b bytes sent c) ∙ r in
      elim (Bool-cases out.0) [
        | inr bad ↦ absurd (
            stopped-ne sent (length (b ∷ bytes)) (omega arith)
              (ap (λ (t : Outcome ℤ × NoiseConn). t.0) (rw bad at step)))
        | inl good ↦
            Sent-then c out.1 e text (pieces_of fuel left) (write_record_lem sealed d good) (
              write_rounds_lem fuel left (sent + chunk) out.1 e
                (omega (arith, length-drop max_plaintext (b ∷ bytes)))
                ((rw good at step) ∙ λ i. (ok (pos (total i)), e)))
      ]
