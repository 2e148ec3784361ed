-- ===== src/Noise/Transport.antt =====
-- The two ends of a connection as one channel of bytes (src/noise.cpp).
use wirebone_cpp.Prelude.{
  ℕ, ◌+◌, ◌≤◌, ◌<◌, ◌≡◌, refl, sym, ap, ◌∙◌, List, [], ◌∷◌, ◌++◌, append_assoc, All, All-append,
  pos, length, length-append, ok, arith,
}
use mathlib.Core.List.{append_cancel_left}
use wirebone_cpp.Crypto.Primitives.{Primitives}
use wirebone_cpp.Noise.Records.{NoiseConn, read, write}
use wirebone_cpp.Noise.Frames.{frames}
use wirebone_cpp.Noise.Sending.{
  FitsRecord, SentAll, advanced, advanced-append, frames-append, pieces_of, joined-pieces_of,
  pieces_of-FitsRecord, write_rounds_lem,
}
use wirebone_cpp.Noise.Receiving.{Carries, pending, read_lem}
use wirebone_cpp.Socket.{joined}
use wirebone_cpp.Socket.Reading.{Full}

-- A sender, a receiver, and what the program wrote to the one and read from the other.
pub record Channel : Type 0 where
  pub sender : NoiseConn
  pub receiver : NoiseConn
  pub written : List ℕ
  pub received : List ℕ

-- The receiver, with more pieces to arrive.
abbrev pub delivered : List (List ℕ) → NoiseConn → NoiseConn
delivered pieces c = record c {
  socket = record c.socket { incoming = c.socket.incoming ++ pieces };
}

joined-append : (xs ys : List (List ℕ)) → joined (xs ++ ys) ≡ joined xs ++ joined ys
joined-append [] ys = refl
joined-append (x ∷ xs) ys =
    ap (λ t. x ++ t) (joined-append xs ys) ∙ sym (append_assoc x (joined xs) (joined ys))

module _ (p : Primitives) where
  -- A write of which the socket took everything, and which arrives in any pieces; or a read. A read
  -- is made where something is left to read; elsewhere `recv` would wait.
  pub data Step (l m : Channel) : Type 0 where
    writes :
        (bytes : List ℕ) (d : NoiseConn) (pieces : List (List ℕ))
        → write p bytes l.sender ≡ (ok (pos (length bytes)), d)
        → All Full pieces
        → d.socket.sent ≡ l.sender.socket.sent ++ joined pieces
        → m ≡ record l {
          sender = d;
          receiver = delivered pieces l.receiver;
          written = l.written ++ bytes;
        }
        → Step l m
    reads :
        (n : ℕ)
        → 0 < n
        → length l.received < length l.written
        → m ≡ record l {
          receiver = (read p n l.receiver).1;
          received = l.received ++ (read p n l.receiver).0;
        }
        → Step l m

  pub data Reach (l : Channel) : Channel → Type 0 where
    here : Reach l l
    after : {m n : Channel} → Reach l m → Step m n → Reach l n

  -- Nothing was sent, and both ends have one key and one counter.
  pub record IsFresh (l : Channel) : Type 0 where
    pub key : l.sender.tx_key ≡ l.receiver.rx_key
    pub counter : l.sender.tx_nonce ≡ l.receiver.rx_nonce
    pub empty : l.receiver.plaintext ≡ []
    pub silent : l.receiver.socket.incoming ≡ []
    pub nothing_written : l.written ≡ []
    pub nothing_received : l.received ≡ []

  -- The texts on the wire and what they make of the channel.
  pub record Linked (l : Channel) : Type 0 where
    pub texts : List (List ℕ)
    pub carries : Carries p l.receiver texts
    pub key : l.sender.tx_key ≡ l.receiver.rx_key
    pub counter : l.sender.tx_nonce ≡ advanced l.receiver.rx_nonce texts
    pub bytes : l.received ++ pending l.receiver texts ≡ l.written

  IsFresh-Linked : (l : Channel) → IsFresh l → Linked l
  IsFresh-Linked l h = record {
    texts = [];
    carries = record { full = rw h.silent tt; wire = ap joined h.silent; fits = tt };
    key = h.key;
    counter = h.counter;
    bytes = (λ i. h.nothing_received i ++ (h.empty i ++ [])) ∙ sym h.nothing_written;
  }

  -- The bytes that a write put on the wire are the records of what it was given.
  new_records :
      (l : Channel) (bytes : List ℕ) (d : NoiseConn) (pieces : List (List ℕ))
      → write p bytes l.sender ≡ (ok (pos (length bytes)), d)
      → d.socket.sent ≡ l.sender.socket.sent ++ joined pieces
      → SentAll p l.sender d (pieces_of (length bytes) bytes)
        × (joined pieces
            ≡ frames p l.sender.tx_key l.sender.tx_nonce (pieces_of (length bytes) bytes))
  unfolding write
  new_records l bytes d pieces done out =
      let total : length bytes ≡ 0 + length bytes = omega arith in
      let sent =
        write_rounds_lem p (length bytes) bytes 0 l.sender d (omega arith)
          (done ∙ λ i. (ok (pos (total i)), d)) in
      (sent, append_cancel_left l.sender.socket.sent _ _ (sym out ∙ sent.2))

  writes-Linked :
      (l : Channel) (bytes : List ℕ) (d : NoiseConn) (pieces : List (List ℕ))
      → write p bytes l.sender ≡ (ok (pos (length bytes)), d)
      → All Full pieces
      → d.socket.sent ≡ l.sender.socket.sent ++ joined pieces
      → Linked l
      → Linked (record l {
        sender = d;
        receiver = delivered pieces l.receiver;
        written = l.written ++ bytes;
      })
  writes-Linked l bytes d pieces done full out h =
      let us = pieces_of (length bytes) bytes in
      let ((key, counter, _), wire) = new_records l bytes d pieces done out in
      let r = l.receiver in
      record {
        texts = h.texts ++ us;
        carries = record {
          full = All-append Full r.socket.incoming pieces h.carries.full full;
          wire =
              joined-append r.socket.incoming pieces
              ∙ (λ i. h.carries.wire i ++ wire i)
              ∙ (λ i. frames p r.rx_key r.rx_nonce h.texts ++ frames p (h.key i) (h.counter i) us)
              ∙ sym (frames-append p r.rx_key r.rx_nonce h.texts us);
          fits =
              All-append FitsRecord h.texts us h.carries.fits
                (pieces_of-FitsRecord (length bytes) bytes);
        };
        key = key ∙ h.key;
        counter =
            counter
            ∙ ap (λ n. advanced n us) h.counter
            ∙ sym (advanced-append r.rx_nonce h.texts us);
        bytes =
            ap (λ t. l.received ++ (r.plaintext ++ t))
              (joined-append h.texts us
                ∙ ap (λ t. joined h.texts ++ t)
                    (joined-pieces_of (length bytes) bytes (omega arith)))
            ∙ ap (λ t. l.received ++ t) (sym (append_assoc r.plaintext (joined h.texts) bytes))
            ∙ sym (append_assoc l.received (pending r h.texts) bytes)
            ∙ ap (λ t. t ++ bytes) h.bytes;
      }

  -- Something is pending where less was read than was written.
  some_pending :
      (l : Channel) (h : Linked l)
      → length l.received < length l.written
      → 0 < length (pending l.receiver h.texts)
  some_pending l h less = omega (
    arith,
    ap (λ (t : List ℕ). length t) h.bytes,
    length-append l.received (pending l.receiver h.texts),
  )

  reads-Linked :
      (l : Channel) (n : ℕ)
      → 0 < n
      → length l.received < length l.written
      → Linked l
      → Linked (record l {
        receiver = (read p n l.receiver).1;
        received = l.received ++ (read p n l.receiver).0;
      })
  reads-Linked l n room less h =
      let (us, some_got, fits, goes) =
        read_lem p n l.receiver h.texts room h.carries (some_pending l h less) in
      record {
        texts = us;
        carries = goes.carries;
        key = h.key ∙ sym goes.key;
        counter = h.counter ∙ sym goes.counter;
        bytes =
            append_assoc l.received (read p n l.receiver).0 (pending (read p n l.receiver).1 us)
            ∙ ap (λ t. l.received ++ t) goes.bytes
            ∙ h.bytes;
      }

  Step-Linked : (l m : Channel) → Step l m → Linked l → Linked m
  Step-Linked l m (writes bytes d pieces done full out e) h =
      rw e (writes-Linked l bytes d pieces done full out h)
  Step-Linked l m (reads n room less e) h = rw e (reads-Linked l n room less h)

  Reach-Linked : (l m : Channel) → Reach l m → Linked l → Linked m
  Reach-Linked l m here h = h
  Reach-Linked l m (after {m = k} r s) h = Step-Linked k m s (Reach-Linked l k r h)

  -- From a fresh channel, after any writes that the socket took in full and any reads that were
  -- made while something was left to read, what was read is a front of what was written.
  pub received_in_order :
      (l m : Channel) → IsFresh l → Reach l m → (rest : List ℕ) × (m.received ++ rest ≡ m.written)
  received_in_order l m fresh r =
      let h = Reach-Linked l m r (IsFresh-Linked l fresh) in (pending m.receiver h.texts, h.bytes)

  -- From a fresh channel, after any writes that the socket took in full and any reads that were
  -- made while something was left to read, where less was read than was written a read with room
  -- for a byte gives one at least, and no more than it has room for.
  pub read_progress :
      (l m : Channel) (n : ℕ)
      → IsFresh l
      → Reach l m
      → length m.received < length m.written
      → 0 < n
      → (0 < length (read p n m.receiver).0) × (length (read p n m.receiver).0 ≤ n)
  read_progress l m n fresh r less room =
      let h = Reach-Linked l m r (IsFresh-Linked l fresh) in
      let (us, some_got, fits, goes) =
        read_lem p n m.receiver h.texts room h.carries (some_pending m h less) in
      (some_got, fits)
