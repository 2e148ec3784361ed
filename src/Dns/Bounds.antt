-- ===== src/Dns/Bounds.antt =====
-- parse_qname stays inside the packet (src/dns.cpp).
use wirebone_cpp.Prelude.{
  ℕ, zero, suc, ◌+◌, ◌*◌, ◌≤◌, ◌≡◌, true, false, Option, none, some, List, [], ◌∷◌, ◌++◌, Str,
  length, length-append, length-take, take, drop, get_or, ltb, leb, ◌==◌, inl, inr, Bool-cases,
  arith,
}
use wirebone_cpp.Dns.{Place, finished, jump, with_label, without_dot, parse_loop, parse_qname}

length-without_dot : (s : Str) → length (without_dot s) ≤ length s
unfolding without_dot
length-without_dot [] = omega arith
length-without_dot (c ∷ []) = ground arith
length-without_dot (c ∷ d ∷ s) = omega (arith, length-without_dot (d ∷ s))

-- A place from which the result lies inside the packet.
abbrev Inside : List ℕ → Place → Type 0
Inside msg c = c.jumped ≡ true → c.after ≤ length msg

abbrev Bounded : ℕ → List ℕ → Place → Option (ℕ × Str) → Type 0
Bounded rounds msg c none = Unit {0}
Bounded rounds msg c (some (off, name)) =
    (off ≤ length msg) × (length name ≤ length c.name + rounds * 192)

one_more :
    (rounds : ℕ) (msg : List ℕ) (c d : Place) (o : Option (ℕ × Str))
    → length d.name ≤ length c.name + 192
    → Bounded rounds msg d o
    → Bounded (suc rounds) msg c o
one_more rounds msg c d none h b = tt
one_more rounds msg c d (some (off, name)) h (inside, short) = (inside, omega arith)

finished_bounds :
    (rounds : ℕ) (msg : List ℕ) (c : Place)
    → Inside msg c
    → leb (length msg) c.off ≡ false
    → Bounded (suc rounds) msg c (some (finished c))
finished_bounds rounds msg c h e = elim (Bool-cases c.jumped) [
  | inl j ↦ simp j (h j, omega (arith, length-without_dot c.name))
  | inr j ↦ simp j (ground arith, omega (arith, length-without_dot c.name))
]

label_size :
    (msg : List ℕ) (c : Place)
    → leb 192 (get_or msg c.off 0) ≡ false
    → length (with_label msg c).name ≤ length c.name + 192
label_size msg c e =
    let label : List ℕ = take (get_or msg c.off 0) (drop (c.off + 1) msg) in
    ground (
      arith,
      length-append c.name (label ++ b'.' ∷ []),
      length-append label (b'.' ∷ []),
      length-take (get_or msg c.off 0) (drop (c.off + 1) msg),
    )

jump-Inside :
    (msg : List ℕ) (c : Place)
    → Inside msg c
    → leb (length msg) (c.off + 1) ≡ false
    → Inside msg (jump msg c)
jump-Inside msg c h e j = elim (Bool-cases c.jumped) [
  | inl k ↦ simp k (h k)
  | inr k ↦ simp k (ground arith)
]

parse_loop_bounds :
    (rounds : ℕ) (msg : List ℕ) (c : Place)
    → Inside msg c
    → Bounded rounds msg c (parse_loop rounds msg c)
unfolding parse_loop
parse_loop_bounds zero msg c h = tt
parse_loop_bounds (suc rounds) msg c h =
    let label : ℕ = get_or msg c.off 0 in
    elim (Bool-cases (leb (length msg) c.off)) [
      | inl e ↦ rw e tt
      | inr e ↦ elim (Bool-cases (label == 0)) [
        | inl f ↦ rw (e, f) (finished_bounds rounds msg c h e)
        | inr f ↦ elim (Bool-cases (leb 192 label)) [
          | inl g ↦ elim (Bool-cases (leb (length msg) (c.off + 1))) [
            | inl k ↦ rw (e, f, g, k) tt
            | inr k ↦
                rw (e, f, g, k)
                  (one_more rounds msg c (jump msg c) _ (omega arith)
                    (parse_loop_bounds rounds msg (jump msg c) (jump-Inside msg c h k)))
          ]
          | inr g ↦ elim (Bool-cases (ltb (length msg) (c.off + 1 + label))) [
            | inl k ↦ rw (e, f, g, k) tt
            | inr k ↦
                rw (e, f, g, k)
                  (one_more rounds msg c (with_label msg c) _ (label_size msg c g)
                    (parse_loop_bounds rounds msg (with_label msg c) h))
          ]
        ]
      ]
    ]

-- Whatever the packet holds and wherever the name begins, a name that is read ends inside the
-- packet, and is no longer than 16 labels of 192 bytes.
pub parse_qname_bounds :
    (msg : List ℕ) (start off : ℕ) (name : Str)
    → parse_qname msg start ≡ some (off, name)
    → (off ≤ length msg) × (length name ≤ 16 * 192)
unfolding parse_qname
parse_qname_bounds msg start off name e =
    let c : Place = record { off = start; name = []; jumped = false; after = start } in
    rw e at (parse_loop_bounds 16 msg c (λ j. cc))
