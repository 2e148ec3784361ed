-- ===== src/Http1/Head.antt =====
-- The head of a request, however it arrives (src/http1.cpp).
use wirebone_cpp.Prelude.{
  ℕ, zero, suc, ◌+◌, ◌≤◌, ◌<◌, ◌≡◌, refl, sym, ap, ◌∙◌, arith, true, false, Option, none, some,
  List, [], ◌∷◌, ◌++◌, append_assoc, append-nil, All, Str, length, length-append, drop, is_empty,
  ltb, inl, inr, Bool-cases, Option-cases,
}
use wirebone_cpp.Socket.{Socket, joined, recv_from}
use wirebone_cpp.Socket.Reading.{
  Full, recv_from_front, recv_from-Full, recv_from_some, empty_length,
}
use wirebone_cpp.Http1.{
  HttpRequest, is_blank_line, cut_head, cons_head, read_head, read_http_request, parse_head,
}

cons_head-some :
    (c : ℕ) (o : Option (Str × Str)) (head behind : Str)
    → cons_head c o ≡ some (head, behind)
    → (rest : Str) × (o ≡ some (rest, behind)) × (head ≡ c ∷ rest)
cons_head-some c none head behind e = cc
cons_head-some c (some (a, b)) head behind e =
    let both : ((c ∷ a) ≡ head) × (b ≡ behind) = ground arith in
    (a, ap (λ t. some (a, t)) both.1, sym both.0)

is_blank_line_long : (s : Str) → is_blank_line s ≡ true → 4 ≤ length s
unfolding is_blank_line
is_blank_line_long [] h = cc
is_blank_line_long (a ∷ []) h = ground arith
is_blank_line_long (a ∷ b ∷ []) h = ground arith
is_blank_line_long (a ∷ b ∷ c ∷ []) h = ground arith
is_blank_line_long (a ∷ b ∷ c ∷ d ∷ s) h = omega arith

-- Four bytes that are there stay in front.
four_append :
    (s t : Str)
    → 4 ≤ length s
    → (is_blank_line (s ++ t) ≡ is_blank_line s) × (drop 4 (s ++ t) ≡ drop 4 s ++ t)
unfolding is_blank_line
four_append [] t h = absurd (omega arith)
four_append (a ∷ []) t h = absurd (omega arith)
four_append (a ∷ b ∷ []) t h = absurd (omega arith)
four_append (a ∷ b ∷ c ∷ []) t h = absurd (omega arith)
four_append (a ∷ b ∷ c ∷ d ∷ s) t h = (refl, refl)

cut_head_long : (s head behind : Str) → cut_head s ≡ some (head, behind) → 4 ≤ length s
unfolding cut_head
cut_head_long [] head behind e = cc
cut_head_long (c ∷ s) head behind e = elim (Bool-cases (is_blank_line (c ∷ s))) [
  | inl here ↦ is_blank_line_long (c ∷ s) here
  | inr later ↦
      let (rest, found, same) = cons_head-some c (cut_head s) head behind (rw later at e) in
      omega (arith, cut_head_long s rest behind found)
]

-- A head that is found is found with more bytes behind it.
cut_head-append :
    (s t head behind : Str)
    → cut_head s ≡ some (head, behind)
    → cut_head (s ++ t) ≡ some (head, behind ++ t)
unfolding cut_head
cut_head-append [] t head behind e = cc
cut_head-append (c ∷ s) t head behind e =
    let (blank, dropped) = four_append (c ∷ s) t (cut_head_long (c ∷ s) head behind e) in
    elim (Bool-cases (is_blank_line (c ∷ s))) [
      | inl here ↦
          let found : ◌≡◌ {A = Option (Str × Str)} (some ([], drop 4 (c ∷ s)))
              (some (head, behind)) =
            rw here at e in
          let parts : ◌≡◌ {A = Str} [] head × (drop 4 (c ∷ s) ≡ behind) = (cc, cc) in
          rw (blank, here, dropped) (λ i. some (parts.0 i, parts.1 i ++ t))
      | inr later ↦
          let (rest, found, same) = cons_head-some c (cut_head s) head behind (rw later at e) in
          rw (blank, later, cut_head-append s t rest behind found, same)
    ]

recv_lem :
    (pieces : List (List ℕ))
    → All Full pieces
    → 0 < length (joined pieces)
    → ((recv_from 1024 pieces).0 ++ joined (recv_from 1024 pieces).1 ≡ joined pieces)
      × All Full (recv_from 1024 pieces).1
      × (is_empty (recv_from 1024 pieces).0 ≡ false)
recv_lem pieces full some_byte = (
  (recv_from_front 1024 pieces).0,
  recv_from-Full 1024 pieces full,
  recv_from_some 1023 pieces full some_byte,
)

something_left :
    (buf more head behind : Str)
    → cut_head buf ≡ none
    → cut_head (buf ++ more) ≡ some (head, behind)
    → 0 < length more
something_left buf [] head behind missing e =
    cc (sym missing ∙ ap cut_head (sym (append-nil buf)) ∙ e)
something_left buf (c ∷ more) head behind missing e = omega arith

-- The loop finds the head of all that arrives.
read_head_lem :
    (fuel : ℕ) (buf : Str) (pieces : List (List ℕ)) (head behind : Str)
    → All Full pieces
    → length (buf ++ joined pieces) ≤ 65536
    → 65536 < fuel + length buf
    → cut_head (buf ++ joined pieces) ≡ some (head, behind)
    → (extra : Str) × ((read_head fuel buf pieces).0 ≡ some (head, extra))
      × (extra ++ joined (read_head fuel buf pieces).1 ≡ behind)
unfolding read_head
read_head_lem zero buf pieces head behind full small enough e =
    absurd (omega (arith, length-append buf (joined pieces)))
read_head_lem (suc fuel) buf pieces head behind full small enough e =
    elim (Option-cases (cut_head buf)) [
      | inr ((h, rest), found) ↦
          let whole = sym (cut_head-append buf (joined pieces) h rest found) ∙ e in
          let parts : (h ≡ head) × (rest ++ joined pieces ≡ behind) = (cc, cc) in
          rw (found, read_head) (rest, (λ i. some (parts.0 i, rest)), parts.1)
      | inl missing ↦
          let some_byte = something_left buf (joined pieces) head behind missing e in
          let (front, still_full, some_got) = recv_lem pieces full some_byte in
          let got = (recv_from 1024 pieces).0 in
          let rest = (recv_from 1024 pieces).1 in
          let grown = empty_length got some_got in
          let whole : (buf ++ got) ++ joined rest ≡ buf ++ joined pieces =
            append_assoc buf got (joined rest) ∙ ap (λ t. buf ++ t) front in
          let sizes = length-append (buf ++ got) (joined rest) in
          let total = ap (λ (t : Str). length t) whole in
          let below : ltb 65536 (length (buf ++ got)) ≡ false = ground arith in
          rw (missing, some_got, below, read_head)
            (read_head_lem fuel (buf ++ got) rest head behind still_full (omega arith)
              (omega (arith, length-append buf got)) (ap cut_head whole ∙ e))
    ]

-- In whatever pieces a request arrives, where it is no longer than 64 KiB with what follows it, and
-- its head can be parsed, it is read as that head is parsed; and what was read behind the head, and
-- then what is still to arrive, is what follows it.
pub read_http_request_lem :
    (s : Socket) (head behind : Str) (req : HttpRequest)
    → All Full s.incoming
    → length (joined s.incoming) ≤ 65536
    → cut_head (joined s.incoming) ≡ some (head, behind)
    → parse_head head ≡ some req
    → (extra : Str) × ((read_http_request s).0 ≡ some (req, extra))
      × (extra ++ joined (read_http_request s).1.incoming ≡ behind)
unfolding read_http_request
read_http_request_lem s head behind req full small e parsed =
    let (extra, found, rest) =
      read_head_lem 65537 [] s.incoming head behind full small (omega arith) e in
    (extra, rw (found, parsed, read_http_request), rw (found, read_http_request) rest)
