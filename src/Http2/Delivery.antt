-- ===== src/Http2/Delivery.antt =====
-- What data_read hands to nghttp2, over any run of reads and pushes (src/http2_session.cpp).
use wirebone_cpp.Prelude.{
  ℕ, ◌≡◌, ◌↔◌, ◌≤◌, ◌+◌, ◌-◌, refl, sym, ap, ◌∙◌, true, not, ◌&&◌, List, [], ◌∷◌, ◌++◌, append-nil,
  append_assoc, length, length-append, take, drop, drop-drop, take-append-drop, min, arith,
  Bool-cases, inl, inr, leb, zero, suc,
}
use wirebone_cpp.Http2.{Stream, Read, deferred, chunk, read_empty, data_read, pushed, closed}

-- What happens to a stream after its answer was begun: nghttp2 reads with some room, the program
-- pushes data, or ends the stream.
pub data Event : Type 0 where
  reads : ℕ → Event
  pushes : List ℕ → Event
  ends : Event

abbrev pub bytes_of : Read → List ℕ
bytes_of deferred = []
bytes_of (chunk bytes eof) = bytes

-- The bytes handed over, and the stream in the end.
unfoldable pub deliver : List Event → Stream → List ℕ × Stream
deliver [] s = ([], s)
deliver (reads room ∷ es) s =
    let (r, t) = data_read room s in let (later, u) = deliver es t in (bytes_of r ++ later, u)
deliver (pushes bytes ∷ es) s = deliver es (pushed bytes s)
deliver (ends ∷ es) s = deliver es (closed s)

abbrev pub all_pushed : List Event → List ℕ
all_pushed [] = []
all_pushed (reads room ∷ es) = all_pushed es
all_pushed (pushes bytes ∷ es) = bytes ++ all_pushed es
all_pushed (ends ∷ es) = all_pushed es

-- What is not handed over yet.
abbrev pub pending : Stream → List ℕ
pending s = drop s.out_off s.out

pub drop-all : (n : ℕ) (xs : List ℕ) → length xs ≤ n → drop n xs ≡ []
drop-all zero [] h = refl
drop-all zero (x ∷ xs) h = absurd (omega arith)
drop-all (suc n) [] h = refl
drop-all (suc n) (x ∷ xs) h = drop-all n xs (omega arith)

read_empty_bytes : (s : Stream) → bytes_of (read_empty s) ≡ []
unfolding read_empty
read_empty_bytes s = elim (Bool-cases (s.ended && not s.streaming)) [
  | inl e ↦ rw e
  | inr e ↦ elim (Bool-cases (s.streaming && not s.ended)) [ inl f ↦ rw (e, f) | inr f ↦ rw (e, f) ]
]

front_back : (off n : ℕ) (xs : List ℕ) → take n (drop off xs) ++ drop (off + n) xs ≡ drop off xs
front_back off n xs =
    ap (λ t. take n (drop off xs) ++ t) (sym (drop-drop off n xs))
    ∙ take-append-drop n (drop off xs)

last_part :
    (off n : ℕ) (xs : List ℕ) → length xs ≤ off + n → take n (drop off xs) ++ [] ≡ drop off xs
last_part off n xs h =
    ap (λ t. take n (drop off xs) ++ t) (sym (drop-all (off + n) xs h)) ∙ front_back off n xs

-- One read hands over the front of what is pending and keeps the rest.
pub data_read-pending :
    (room : ℕ) (s : Stream)
    → bytes_of (data_read room s).0 ++ pending (data_read room s).1 ≡ pending s
unfolding data_read
data_read-pending room s = elim (Bool-cases (leb (length s.out) s.out_off)) [
  | inl e ↦ rw (e, read_empty_bytes s)
  | inr e ↦
      elim (Bool-cases (leb (length s.out) (s.out_off + min room (length s.out - s.out_off)))) [
        | inl f ↦
            rw (e, f)
              (last_part s.out_off (min room (length s.out - s.out_off)) s.out (ground arith))
        | inr f ↦ rw (e, f) (front_back s.out_off (min room (length s.out - s.out_off)) s.out)
      ]
]

-- A read leaves the offset inside the buffer.
pub data_read-offset :
    (room : ℕ) (s : Stream)
    → s.out_off ≤ length s.out
    → (data_read room s).1.out_off ≤ length (data_read room s).1.out
unfolding data_read
data_read-offset room s h = ground arith

drop-pushed : (n : ℕ) (xs ys : List ℕ) → n ≤ length xs → drop n (xs ++ ys) ≡ drop n xs ++ ys
drop-pushed zero xs ys h = refl
drop-pushed (suc n) [] ys h = absurd (omega arith)
drop-pushed (suc n) (x ∷ xs) ys h = drop-pushed n xs ys (omega arith)

-- Over any run of reads and pushes from an offset inside the buffer, what nghttp2 was handed, and then what is still pending, is what was pending at the
-- start and then every push in its order: nothing is lost, repeated or swapped.
pub deliver_lem :
    (es : List Event) (s : Stream)
    → s.out_off ≤ length s.out
    → (deliver es s).0 ++ pending (deliver es s).1 ≡ pending s ++ all_pushed es
unfolding deliver
deliver_lem [] s h = sym (append-nil (pending s))
deliver_lem (reads room ∷ es) s h =
    let t = (data_read room s).1 in
    let bytes = bytes_of (data_read room s).0 in
    append_assoc bytes (deliver es t).0 (pending (deliver es t).1)
    ∙ ap (λ z. bytes ++ z) (deliver_lem es t (data_read-offset room s h))
    ∙ sym (append_assoc bytes (pending t) (all_pushed es))
    ∙ ap (λ z. z ++ all_pushed es) (data_read-pending room s)
deliver_lem (pushes bytes ∷ es) s h =
    deliver_lem es (pushed bytes s) (omega (arith, length-append s.out bytes))
    ∙ ap (λ z. z ++ all_pushed es) (drop-pushed s.out_off s.out bytes h)
    ∙ append_assoc (pending s) bytes (all_pushed es)
deliver_lem (ends ∷ es) s h = deliver_lem es (closed s) h

-- On a stream that is streaming exactly until it is ended, a read flags EOF exactly if the stream is
-- ended and there is room for all that is pending.
pub data_read_eof :
    (room : ℕ) (s : Stream)
    → (s.streaming ≡ not s.ended)
    → ((data_read room s).0 ≡ chunk (bytes_of (data_read room s).0) true)
      ↔ ((s.ended ≡ true) × (leb (length s.out) (s.out_off + room) ≡ true))
unfolding data_read read_empty
data_read_eof room s h = (λ e. ground arith, λ e. ground arith)
