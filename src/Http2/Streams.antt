-- ===== src/Http2/Streams.antt =====
-- Finding a stream after another was changed (src/http2_session.cpp).
use wirebone_cpp.Prelude.{
  ℕ, ◌≡◌, refl, ap, ◌∙◌, arith, inl, inr, true, false, some, List, [], ◌∷◌, ◌==◌, Bool-cases,
  Option-cases,
}
use wirebone_cpp.Http2.{Stream, Server, find_stream, change_stream, push_data, pushed}

-- The change keeps the number of a stream.
abbrev KeepsId : (Stream → Stream) → Type 0
KeepsId f = (s : Stream) → (f s).id ≡ s.id

find_stream_cons :
    (id : ℕ) (s : Stream) (ss : List Stream)
    → (s.id == id) ≡ true
    → find_stream id (s ∷ ss) ≡ some s
unfolding find_stream
find_stream_cons id s ss e = rw e

find_stream-change_stream :
    (id : ℕ) (f : Stream → Stream) (ss : List Stream) (s : Stream)
    → KeepsId f
    → find_stream id ss ≡ some s
    → find_stream id (change_stream id f ss) ≡ some (f s)
unfolding find_stream change_stream
find_stream-change_stream id f [] s keeps e = cc
find_stream-change_stream id f (x ∷ ss) s keeps e = elim (Bool-cases (x.id == id)) [
  | inl same ↦
      let this : x ≡ s = cc (rw same at e) in
      let found : ((f x).id == id) ≡ true = ap (λ n. n == id) (keeps x) ∙ same in
      rw (same, found) (ap (λ t. some (f t)) this)
  | inr other ↦ rw (other, find_stream-change_stream id f ss s keeps (rw other at e), other)
]

find_stream_other :
    (id other : ℕ) (f : Stream → Stream) (ss : List Stream)
    → KeepsId f
    → (other == id) ≡ false
    → find_stream id (change_stream other f ss) ≡ find_stream id ss
unfolding find_stream change_stream
find_stream_other id other f [] keeps h = refl
find_stream_other id other f (x ∷ ss) keeps h = elim (Bool-cases (x.id == other)) [
  | inl this ↦
      let missed : (x.id == id) ≡ false = ground arith in
      let still : ((f x).id == id) ≡ false = ap (λ n. n == id) (keeps x) ∙ missed in
      rw (this, missed, still)
  | inr differs ↦ rw (differs, find_stream_other id other f ss keeps h)
]

-- The stream to which bytes are pushed has them at its end.
pub push_data-found :
    (id : ℕ) (bytes : List ℕ) (v : Server) (s : Stream)
    → find_stream id v.streams ≡ some s
    → find_stream id (push_data id bytes v).streams ≡ some (pushed bytes s)
unfolding push_data
push_data-found id bytes v s e =
    rw (e, push_data) (find_stream-change_stream id (pushed bytes) v.streams s (λ t. refl) e)

-- Any other stays.
pub push_data-other :
    (id other : ℕ) (bytes : List ℕ) (v : Server)
    → (other == id) ≡ false
    → find_stream id (push_data other bytes v).streams ≡ find_stream id v.streams
unfolding push_data
push_data-other id other bytes v h = elim (Option-cases (find_stream other v.streams)) [
  | inl e ↦ rw (e, push_data)
  | inr (s, e) ↦
      rw (e, push_data) (find_stream_other id other (pushed bytes) v.streams (λ t. refl) h)
]
