-- ===== src/Dns/Names.antt =====
-- Names in a packet: what parse_qname makes of the labels that a resolver writes (src/dns.cpp).
use wirebone_cpp.Prelude.{
  ℕ, zero, suc, ◌+◌, ◌-◌, ◌≤◌, ◌<◌, ◌≡◌, refl, sym, ap, ◌∙◌, false, none, some, List, [], ◌∷◌, ◌++◌,
  append-nil, append_assoc, Str, All, length, length-append, take, drop, take-append, drop-append,
  drop-drop, length-drop, get_or, get_or-drop, ltb, leb, ◌==◌, inl, inr, Bool-cases, if◌then◌else◌,
  arith,
}
use wirebone_cpp.Dns.{Place, finished, without_dot, parse_loop, parse_qname}

-- The wire form of labels: each behind its length, and a zero.
abbrev pub encoded : List Str → List ℕ
encoded [] = 0 ∷ []
encoded (l ∷ ls) = length l ∷ (l ++ encoded ls)

-- A label whose length is none of zero and a pointer.
abbrev pub IsLabel : Str → Type 0
IsLabel l = (0 < length l) × (length l < 192)

abbrev dotted : List Str → Str
dotted [] = []
dotted (l ∷ ls) = (l ++ b'.' ∷ []) ++ dotted ls

-- The labels with dots between them.
abbrev pub spelled : List Str → Str
spelled [] = []
spelled (l ∷ []) = l
spelled (l ∷ m ∷ ls) = l ++ (b'.' ∷ spelled (m ∷ ls))

without_dot-append :
    (xs : Str) (y : ℕ) (ys : Str) → without_dot (xs ++ y ∷ ys) ≡ xs ++ without_dot (y ∷ ys)
unfolding without_dot
without_dot-append [] y ys = refl
without_dot-append (x ∷ []) y ys = refl
without_dot-append (x ∷ z ∷ xs) y ys = ap (λ t. x ∷ t) (without_dot-append (z ∷ xs) y ys)

without_dot-dotted : (ls : List Str) → All IsLabel ls → without_dot (dotted ls) ≡ spelled ls
unfolding without_dot
without_dot-dotted [] h = refl
without_dot-dotted (l ∷ []) h =
    ap without_dot (append-nil (l ++ b'.' ∷ [])) ∙ without_dot-append l b'.' [] ∙ append-nil l
without_dot-dotted (l ∷ [] ∷ ls) h = absurd (omega arith)
without_dot-dotted (l ∷ (c ∷ m) ∷ ls) (hl, h) =
    ap without_dot (append_assoc l (b'.' ∷ []) (dotted ((c ∷ m) ∷ ls)))
    ∙ without_dot-append l b'.' (dotted ((c ∷ m) ∷ ls))
    ∙ ap (λ t. l ++ (b'.' ∷ t)) (without_dot-dotted ((c ∷ m) ∷ ls) h)

-- The labels stand at the place, and `post` behind them.
abbrev At : List ℕ → Place → List Str → List ℕ → Type 0
At msg c ls post = drop c.off msg ≡ encoded ls ++ post

first_byte :
    (msg : List ℕ) (off b : ℕ) (rest : List ℕ) → drop off msg ≡ b ∷ rest → get_or msg off 0 ≡ b
first_byte msg off b rest e =
    let at : off ≡ off + 0 = omega arith in
    ap (λ k. get_or msg k 0) at ∙ get_or-drop msg off 0 0 ∙ ap (λ t. get_or t 0 0) e

after_byte :
    (msg : List ℕ) (off b : ℕ) (rest : List ℕ) → drop off msg ≡ b ∷ rest → drop (off + 1) msg ≡ rest
after_byte msg off b rest e = sym (drop-drop off 1 msg) ∙ ap (λ t. drop 1 t) e

size : (msg : List ℕ) (off : ℕ) (xs : List ℕ) → drop off msg ≡ xs → length msg - off ≡ length xs
size msg off xs e = sym (length-drop off msg) ∙ ap (λ t. length t) e

parse_zero :
    (rounds : ℕ) (msg : List ℕ) (c : Place) (post : List ℕ)
    → At msg c [] post
    → parse_loop (suc rounds) msg c ≡ some (finished c)
unfolding parse_loop
parse_zero rounds msg c post e =
    let byte = first_byte msg c.off 0 post e in
    let inside : leb (length msg) c.off ≡ false = ground (arith, size msg c.off (0 ∷ post) e) in
    rw (inside, byte)

parse_label :
    (rounds : ℕ) (msg : List ℕ) (c : Place) (l : Str) (ls : List Str) (post : List ℕ)
    → IsLabel l
    → At msg c (l ∷ ls) post
    → (parse_loop (suc rounds) msg c
        ≡ parse_loop rounds msg
            (record c { off = c.off + 1 + length l; name = c.name ++ (l ++ b'.' ∷ []) }))
      × At msg (record c { off = c.off + 1 + length l; name = c.name ++ (l ++ b'.' ∷ []) }) ls post
unfolding parse_loop
parse_label rounds msg c l ls post (lo, hi) e =
    let rest : List ℕ = (l ++ encoded ls) ++ post in
    let byte = first_byte msg c.off (length l) rest e in
    let text = after_byte msg c.off (length l) rest e ∙ append_assoc l (encoded ls) post in
    let bound = size msg c.off (length l ∷ rest) e in
    let inside : leb (length msg) c.off ≡ false = ground arith in
    let some_text : (length l == 0) ≡ false = ground arith in
    let no_pointer : leb 192 (length l) ≡ false = ground arith in
    let room : ltb (length msg) (c.off + 1 + length l) ≡ false =
      ground (arith, length-append (l ++ encoded ls) post, length-append l (encoded ls)) in
    let label : take (length l) (drop (c.off + 1) msg) ≡ l =
      ap (λ t. take (length l) t) text ∙ take-append l (encoded ls ++ post) (length l) refl in
    (
      rw (inside, byte, some_text, no_pointer, room, label),
      sym (drop-drop (c.off + 1) (length l) msg)
          ∙ ap (λ t. drop (length l) t) text
          ∙ drop-append l (encoded ls ++ post) (length l) refl,
    )

parse_labels :
    (rounds : ℕ) (msg : List ℕ) (c : Place) (ls : List Str) (post : List ℕ)
    → length ls < rounds
    → All IsLabel ls
    → c.jumped ≡ false
    → At msg c ls post
    → parse_loop rounds msg c
      ≡ some (c.off + length (encoded ls), without_dot (c.name ++ dotted ls))
parse_labels zero msg c ls post h labels here e = absurd (omega arith)
parse_labels (suc rounds) msg c [] post h labels here e =
    let whole = sym (append-nil c.name) in
    parse_zero rounds msg c post e ∙ λ i.
    some (if here i then c.after else c.off + 1, without_dot (whole i))
parse_labels (suc rounds) msg c (l ∷ ls) post h (hl, labels) here e =
    let (step, e') = parse_label rounds msg c l ls post hl e in
    let end : (c.off + 1 + length l) + length (encoded ls) ≡ c.off + length (encoded (l ∷ ls)) =
      omega (arith, length-append l (encoded ls)) in
    step ∙ parse_labels rounds msg _ ls post (omega arith) labels here e' ∙ λ i.
    some (end i, without_dot (append_assoc c.name (l ++ b'.' ∷ []) (dotted ls) i))

parse_long :
    (rounds : ℕ) (msg : List ℕ) (c : Place) (ls : List Str) (post : List ℕ)
    → rounds ≤ length ls
    → All IsLabel ls
    → At msg c ls post
    → parse_loop rounds msg c ≡ none
unfolding parse_loop
parse_long zero msg c ls post h labels e = refl
parse_long (suc rounds) msg c [] post h labels e = absurd (omega arith)
parse_long (suc rounds) msg c (l ∷ ls) post h (hl, labels) e =
    let (step, e') = parse_label rounds msg c l ls post hl e in
    step ∙ parse_long rounds msg _ ls post (omega arith) labels e'

-- A name of at most 15 labels, with anything before and behind it, is read as its labels with dots
-- between them, and the offset behind it; one of more labels is refused.
pub parse_qname-encoded :
    (pre : List ℕ) (ls : List Str) (post : List ℕ)
    → All IsLabel ls
    → parse_qname (pre ++ (encoded ls ++ post)) (length pre)
      ≡ (if ltb (length ls) 16 then some (length pre + length (encoded ls), spelled ls) else none)
unfolding parse_qname
parse_qname-encoded pre ls post labels =
    let msg = pre ++ (encoded ls ++ post) in
    let e = drop-append pre (encoded ls ++ post) (length pre) refl in
    elim (Bool-cases (ltb (length ls) 16)) [
      | inl short ↦ rw short (
          parse_labels 16 msg _ ls post (ground arith) labels refl e ∙ λ i.
          some (length pre + length (encoded ls), without_dot-dotted ls labels i))
      | inr long ↦ rw long (parse_long 16 msg _ ls post (ground arith) labels e)
    ]
