-- ===== src/Http2/Drained.antt =====
-- That nghttp2 gets all that was pushed, once it reads often enough (src/http2_session.cpp).
use wirebone_cpp.Prelude.{
  ℕ, ◌≡◌, ◌≤◌, ◌<◌, ◌+◌, ◌-◌, refl, sym, ap, ◌∙◌, List, [], ◌∷◌, ◌++◌, append-nil, All, map, length,
  length-append, length-drop, min, arith, Bool-cases, inl, inr, leb,
}
use wirebone_cpp.Http2.{Stream, data_read, pushed, closed}
use wirebone_cpp.Http2.Delivery.{
  Event, reads, pushes, ends, deliver, all_pushed, pending, deliver_lem,
}

-- A read with room for a byte takes one of those that are pending.
read_shrinks :
    (room : ℕ) (s : Stream)
    → 0 < room
    → length (pending (data_read room s).1) ≤ length (pending s) - 1
unfolding data_read
read_shrinks room s h =
    let whole = length-drop s.out_off s.out in
    elim (Bool-cases (leb (length s.out) s.out_off)) [
      | inl e ↦ rw e (ground (arith, whole))
      | inr e ↦
          elim (Bool-cases (leb (length s.out) (s.out_off + min room (length s.out - s.out_off)))) [
            | inl f ↦ rw (e, f) (omega arith)
            | inr f ↦
                let rest = length-drop (s.out_off + min room (length s.out - s.out_off)) s.out in
                rw (e, f) (ground (arith, whole, rest))
          ]
    ]

none_pending : (xs : List ℕ) → length xs ≤ 0 → xs ≡ []
none_pending [] h = refl
none_pending (x ∷ xs) h = absurd (omega arith)

-- Reads alone, as many as there are bytes.
drained :
    (rooms : List ℕ) (s : Stream)
    → All (λ room. 0 < room) rooms
    → length (pending s) ≤ length rooms
    → pending (deliver (map reads rooms) s).1 ≡ []
unfolding deliver
drained [] s h k = none_pending (pending s) k
drained (room ∷ rooms) s (hr, h) k =
    drained rooms (data_read room s).1 h (omega (arith, read_shrinks room s hr))

drained_after :
    (es : List Event) (rooms : List ℕ) (s : Stream)
    → All (λ room. 0 < room) rooms
    → length (pending (deliver es s).1) ≤ length rooms
    → pending (deliver (es ++ map reads rooms) s).1 ≡ []
unfolding deliver
drained_after [] rooms s h k = drained rooms s h k
drained_after (reads room ∷ es) rooms s h k = drained_after es rooms (data_read room s).1 h k
drained_after (pushes bytes ∷ es) rooms s h k = drained_after es rooms (pushed bytes s) h k
drained_after (ends ∷ es) rooms s h k = drained_after es rooms (closed s) h k

pushed_before :
    (es : List Event) (rooms : List ℕ) → all_pushed (es ++ map reads rooms) ≡ all_pushed es
pushed_before [] [] = refl
pushed_before [] (room ∷ rooms) = pushed_before [] rooms
pushed_before (reads room ∷ es) rooms = pushed_before es rooms
pushed_before (pushes bytes ∷ es) rooms = ap (λ z. bytes ++ z) (pushed_before es rooms)
pushed_before (ends ∷ es) rooms = pushed_before es rooms

-- From an offset inside the buffer, after any reads, pushes and an end in any order, as many further reads with room
-- for a byte as bytes were pending at the start or pushed hand over every one of them: what was pending at the start, and
-- then every push in its order.
pub deliver_all :
    (es : List Event) (rooms : List ℕ) (s : Stream)
    → s.out_off ≤ length s.out
    → All (λ room. 0 < room) rooms
    → length (pending s) + length (all_pushed es) ≤ length rooms
    → (deliver (es ++ map reads rooms) s).0 ≡ pending s ++ all_pushed es
deliver_all es rooms s h pos enough =
    let parts = ap (length {A = ℕ}) (deliver_lem es s h) in
    let left : length (pending (deliver es s).1) ≤ length rooms = omega (
      arith,
      length-append (deliver es s).0 (pending (deliver es s).1),
      length-append (pending s) (all_pushed es),
    ) in
    sym (append-nil _)
    ∙ ap (λ z. (deliver (es ++ map reads rooms) s).0 ++ z) (sym (drained_after es rooms s pos left))
    ∙ deliver_lem (es ++ map reads rooms) s h
    ∙ ap (λ z. pending s ++ z) (pushed_before es rooms)
