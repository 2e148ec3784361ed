-- ===== src/Noise/Receiving.antt =====
-- What NoiseConn::read gives while records are on the wire (src/noise.cpp).
use wirebone_cpp.Prelude.{
  ℕ, zero, suc, ◌+◌, ◌≤◌, ◌<◌, ◌≡◌, refl, sym, ap, ◌∙◌, Bool, true, false, List, [], ◌∷◌, ◌++◌,
  append_assoc, All, length, take, drop, take-append-drop, length-take, length-append, min,
  is_empty, ◌==◌, arith, inl, inr, Bool-cases,
}
use wirebone_cpp.Crypto.Primitives.{Primitives}
use wirebone_cpp.Noise.Records.{NoiseConn, next_nonce, fill, take_out, read}
use wirebone_cpp.Noise.Frames.{frames, decrypt_one_lem}
use wirebone_cpp.Noise.Sending.{FitsRecord, advanced}
use wirebone_cpp.Socket.{joined}
use wirebone_cpp.Socket.Reading.{Full, empty_length}

-- What a receiver has yet to give: its plaintext, and the texts of the records on the wire.
abbrev pub pending : NoiseConn → List (List ℕ) → List ℕ
pending c ts = c.plaintext ++ joined ts

module _ (p : Primitives) where
  -- The records of `ts` are on the wire, under the receiver's key and counter.
  pub record Carries (c : NoiseConn) (ts : List (List ℕ)) : Type 0 where
    pub full : All Full c.socket.incoming
    pub wire : joined c.socket.incoming ≡ frames p c.rx_key c.rx_nonce ts
    pub fits : All FitsRecord ts

  -- The receiver has gone on from `c` and `ts` to `d` and `us`, and has given `got`.
  pub record Goes (c : NoiseConn) (ts : List (List ℕ)) (got : List ℕ) (d : NoiseConn)
      (us : List (List ℕ)) : Type 0 where
    pub carries : Carries d us
    pub key : d.rx_key ≡ c.rx_key
    pub counter : advanced d.rx_nonce us ≡ advanced c.rx_nonce ts
    pub bytes : got ++ pending d us ≡ pending c ts

  some_text : (text : List ℕ) → 0 < length text → is_empty text ≡ false
  some_text [] h = absurd (omega arith)
  some_text (b ∷ text) h = refl

  no_text : (text : List ℕ) → is_empty text ≡ true → text ≡ []
  no_text [] e = refl
  no_text (b ∷ text) e = cc

  fill_some : (fuel : ℕ) (c : NoiseConn) → is_empty c.plaintext ≡ false → fill p fuel c ≡ (true, c)
  unfolding fill
  fill_some zero c e = rw e
  fill_some (suc fuel) c e = rw e

  abbrev Filled : NoiseConn → List (List ℕ) → Bool × NoiseConn → Type 0
  Filled c ts r =
      (d : NoiseConn) × (us : List (List ℕ)) × (r ≡ (true, d))
      × (0 < length d.plaintext)
      × Goes c ts [] d us

  -- A receiver without plaintext takes the next record off the wire.
  fill_next :
      (fuel : ℕ) (c : NoiseConn) (t : List ℕ) (ts : List (List ℕ))
      → Carries c (t ∷ ts)
      → is_empty c.plaintext ≡ true
      → Filled c (t ∷ ts) (fill p (suc fuel) c)
  unfolding fill
  fill_next fuel c t ts h e =
      let (rest, done, later, full) =
        decrypt_one_lem p c t (frames p (c.rx_key) (next_nonce c.rx_nonce) ts) h.fits.0.1 h.full
          h.wire in
      let d : NoiseConn = record c {
        socket = record c.socket { incoming = rest };
        rx_nonce = next_nonce c.rx_nonce;
        plaintext = c.plaintext ++ t;
      } in
      let long : 0 < length d.plaintext = omega (arith, h.fits.0.0, length-append c.plaintext t) in
      (
        d,
        ts,
        rw (e, done) (fill_some fuel d (some_text d.plaintext long)),
        long,
        record {
          carries = record { full = full; wire = later; fits = h.fits.1 };
          key = refl;
          counter = refl;
          bytes = append_assoc c.plaintext t (joined ts);
        },
      )

  fill_lem :
      (fuel : ℕ) (c : NoiseConn) (ts : List (List ℕ))
      → Carries c ts
      → 0 < length (pending c ts)
      → Filled c ts (fill p (suc fuel) c)
  fill_lem fuel c [] h more =
      let long : 0 < length c.plaintext = omega (arith, length-append c.plaintext []) in
      (
        c,
        [],
        fill_some (suc fuel) c (some_text c.plaintext long),
        long,
        record { carries = h; key = refl; counter = refl; bytes = refl },
      )
  fill_lem fuel c (t ∷ ts) h more = elim (Bool-cases (is_empty c.plaintext)) [
    | inl e ↦ fill_next fuel c t ts h e
    | inr e ↦ (
      c,
      t ∷ ts,
      fill_some (suc fuel) c e,
      empty_length c.plaintext e,
      record { carries = h; key = refl; counter = refl; bytes = refl },
    )
  ]

  -- A read with room gives some bytes where any are pending, the front of them.
  abbrev pub Gives : ℕ → NoiseConn → List (List ℕ) → List ℕ × NoiseConn → Type 0
  Gives n c ts r = (us : List (List ℕ)) × (0 < length r.0) × (length r.0 ≤ n) × Goes c ts r.0 r.1 us

  taken :
      (n : ℕ) (c e : NoiseConn) (ts us : List (List ℕ))
      → 0 < n
      → 0 < length e.plaintext
      → Goes c ts [] e us
      → Gives n c ts (take_out p n (true, e))
  taken n c e ts us h more goes =
      let size : ℕ = min n (length e.plaintext) in
      let got = take size e.plaintext in
      let left = drop size e.plaintext in
      (
        us,
        omega (arith, length-take size e.plaintext),
        omega (arith, length-take size e.plaintext),
        record {
          carries = record {
            full = goes.carries.full;
            wire = goes.carries.wire;
            fits = goes.carries.fits;
          };
          key = goes.key;
          counter = goes.counter;
          bytes =
              sym (append_assoc got left (joined us))
              ∙ ap (λ t. t ++ joined us) (take-append-drop size e.plaintext)
              ∙ goes.bytes;
        },
      )

  taken-Filled :
      (n : ℕ) (c : NoiseConn) (ts : List (List ℕ)) (r : Bool × NoiseConn)
      → 0 < n
      → Filled c ts r
      → Gives n c ts (take_out p n r)
  taken-Filled n c ts r h (e, us, same, more, goes) = rw same (taken n c e ts us h more goes)

  pub read_lem :
      (n : ℕ) (c : NoiseConn) (ts : List (List ℕ))
      → 0 < n
      → Carries c ts
      → 0 < length (pending c ts)
      → Gives n c ts (read p n c)
  unfolding read
  read_lem n c ts h carries more =
      let some_room : (n == 0) ≡ false = ground arith in
      let fuel : length (joined c.socket.incoming) + 1 ≡ suc (length (joined c.socket.incoming)) =
        omega arith in
      rw (some_room, fuel)
        (taken-Filled n c ts (fill p (suc (length (joined c.socket.incoming))) c) h
          (fill_lem (length (joined c.socket.incoming)) c ts carries more))
