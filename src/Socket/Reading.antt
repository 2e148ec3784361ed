-- ===== src/Socket/Reading.antt =====
-- What read_full reads does not depend on the pieces in which the bytes arrive (src/noise.cpp).
use wirebone_cpp.Prelude.{
  ℕ, zero, suc, ◌+◌, ◌-◌, ◌≤◌, ◌<◌, ◌≡◌, refl, sym, ap, ◌∙◌, false, Option, none, some, List, [],
  ◌∷◌, ◌++◌, append_assoc, All, length, length-append, take, drop, take-append-drop, length-take,
  length-drop, is_empty, leb, arith, inl, inr, Bool-cases,
}
use wirebone_cpp.Socket.{joined, recv_from, prefixed, read_loop}

abbrev pub Full : List ℕ → Type 0
Full piece = 0 < length piece

-- `recv` reads the front of what will arrive, up to its room.
pub recv_from_front :
    (n : ℕ) (pieces : List (List ℕ))
    → ((recv_from n pieces).0 ++ joined (recv_from n pieces).1 ≡ joined pieces)
      × (length (recv_from n pieces).0 ≤ n)
unfolding recv_from
recv_from_front n [] = (refl, omega arith)
recv_from_front n (piece ∷ pieces) = elim (Bool-cases (leb (length piece) n)) [
  | inl e ↦ rw e (refl, ground arith)
  | inr e ↦ rw e (
    sym (append_assoc (take n piece) (drop n piece) (joined pieces))
        ∙ ap (λ t. t ++ joined pieces) (take-append-drop n piece),
    omega (arith, length-take n piece),
  )
]

pub recv_from-Full :
    (n : ℕ) (pieces : List (List ℕ)) → All Full pieces → All Full (recv_from n pieces).1
unfolding recv_from
recv_from-Full n [] h = tt
recv_from-Full n (piece ∷ pieces) (h, hs) = elim (Bool-cases (leb (length piece) n)) [
  | inl e ↦ rw e hs
  | inr e ↦ rw e (ground (arith, length-drop n piece), hs)
]

pub recv_from_some :
    (m : ℕ) (pieces : List (List ℕ))
    → All Full pieces
    → 0 < length (joined pieces)
    → is_empty (recv_from (suc m) pieces).0 ≡ false
unfolding recv_from
recv_from_some m [] h pos = absurd (omega arith)
recv_from_some m ([] ∷ pieces) (h, hs) pos = absurd (omega arith)
recv_from_some m ((b ∷ piece) ∷ pieces) h pos = ground arith

pub empty_length : (xs : List ℕ) → is_empty xs ≡ false → 0 < length xs
empty_length [] e = cc
empty_length (x ∷ xs) e = omega arith

-- Two ways to cut a text: the shorter front is a front of the longer one.
pub split_front :
    (xs ys zs ws : List ℕ)
    → xs ++ ys ≡ zs ++ ws
    → length xs ≤ length zs
    → (ms : List ℕ) × (zs ≡ xs ++ ms) × (ys ≡ ms ++ ws)
split_front [] ys zs ws e h = (zs, refl, e)
split_front (x ∷ xs) ys [] ws e h = absurd (omega arith)
split_front (x ∷ xs) ys (z ∷ zs) ws e h =
    let (ms, same, rest) = split_front xs ys zs ws (cc) (omega arith) in
    let head : x ≡ z = cc in (ms, cc, rest)

-- Where `bytes` is what comes next, a read of its length gives it, and leaves what follows it.
abbrev pub Reads : List ℕ → List ℕ → Option (List ℕ) × List (List ℕ) → Type 0
Reads bytes tail r =
    (rest : List (List ℕ)) × (r ≡ (some bytes, rest)) × (joined rest ≡ tail) × All Full rest

pub read_loop_lem :
    (fuel need : ℕ) (pieces : List (List ℕ)) (bytes tail : List ℕ)
    → need ≤ fuel
    → All Full pieces
    → length bytes ≡ need
    → joined pieces ≡ bytes ++ tail
    → Reads bytes tail (read_loop fuel need pieces)
unfolding read_loop
read_loop_lem fuel zero pieces [] tail h full len e = (pieces, refl, e, full)
read_loop_lem fuel zero pieces (b ∷ bytes) tail h full len e = absurd (omega arith)
read_loop_lem zero (suc m) pieces bytes tail h full len e = absurd (omega arith)
read_loop_lem (suc fuel) (suc m) pieces bytes tail h full len e =
    let (got, rest) = recv_from (suc m) pieces in
    let (same, short) = recv_from_front (suc m) pieces in
    let full' = recv_from-Full (suc m) pieces full in
    let some_got =
      recv_from_some m pieces full
        (omega (arith, ap (λ (t : List ℕ). length t) e, length-append bytes tail)) in
    let pos = empty_length got some_got in
    let (ms, front, left) = split_front got (joined rest) bytes tail (same ∙ e) (omega arith) in
    let (end, done, later, full_end) =
      read_loop_lem fuel (suc m - length got) rest ms tail (omega arith) full'
        (omega (arith, ap (λ (t : List ℕ). length t) front, length-append got ms)) left in
    (end, rw (some_got, done) (λ i. (some (sym front i), end)), later, full_end)

-- Where less will arrive than is asked for, the read fails.
pub read_loop_short :
    (fuel need : ℕ) (pieces : List (List ℕ))
    → All Full pieces
    → length (joined pieces) < need
    → (read_loop fuel need pieces).0 ≡ none
unfolding read_loop
read_loop_short fuel zero pieces full h = absurd (omega arith)
read_loop_short zero (suc m) pieces full h = refl
read_loop_short (suc fuel) (suc m) pieces full h =
    let (got, rest) = recv_from (suc m) pieces in
    let (same, short) = recv_from_front (suc m) pieces in
    let full' = recv_from-Full (suc m) pieces full in
    elim (Bool-cases (is_empty got)) [
      | inl none_left ↦ rw none_left
      | inr e ↦ rw (
        e,
        read_loop_short fuel (suc m - length got) rest full'
            (omega (arith, ap (λ (t : List ℕ). length t) same, length-append got (joined rest))),
      )
    ]

prefixed-some :
    (got : List ℕ) (more : Option (List ℕ)) (bytes : List ℕ)
    → prefixed got more ≡ some bytes
    → (later : List ℕ) × (more ≡ some later)
prefixed-some got none bytes e = cc
prefixed-some got (some later) bytes e = (later, refl)

-- A read that succeeds has taken its bytes off the front of what will arrive.
pub read_loop_sound :
    (fuel need : ℕ) (pieces : List (List ℕ)) (bytes : List ℕ) (rest : List (List ℕ))
    → read_loop fuel need pieces ≡ (some bytes, rest)
    → length (joined rest) + need ≡ length (joined pieces)
unfolding read_loop
read_loop_sound fuel zero pieces bytes rest e =
    let same : pieces ≡ rest = cc in omega (arith, ap (λ t. length (joined t)) same)
read_loop_sound zero (suc m) pieces bytes rest e = cc
read_loop_sound (suc fuel) (suc m) pieces bytes rest e =
    let (got, left) = recv_from (suc m) pieces in
    let (same, short) = recv_from_front (suc m) pieces in
    elim (Bool-cases (is_empty got)) [
      | inl nothing ↦ cc (rw nothing at e)
      | inr some_got ↦
          let (more, end) = read_loop fuel (suc m - length got) left in
          let whole : ◌≡◌ {A = Option (List ℕ) × List (List ℕ)} (prefixed got more, end)
              (some bytes, rest) =
            rw some_got at e in
          let (later, found) =
            prefixed-some got more bytes
              (ap (λ (t : Option (List ℕ) × List (List ℕ)). t.0) whole) in
          let end_rest : end ≡ rest = ap (λ (t : Option (List ℕ) × List (List ℕ)). t.1) whole in
          let smaller =
            read_loop_sound fuel (suc m - length got) left later rest
              (λ i. (found i, end_rest i)) in
          omega (arith, ap (λ (t : List ℕ). length t) same, length-append got (joined left))
    ]

-- No read puts anything back.
pub read_loop-le :
    (fuel need : ℕ) (pieces : List (List ℕ))
    → length (joined (read_loop fuel need pieces).1) ≤ length (joined pieces)
unfolding read_loop
read_loop-le fuel zero pieces = omega arith
read_loop-le zero (suc m) pieces = omega arith
read_loop-le (suc fuel) (suc m) pieces =
    let (got, rest) = recv_from (suc m) pieces in
    let (same, short) = recv_from_front (suc m) pieces in
    let sizes = ap (λ (t : List ℕ). length t) same in
    elim (Bool-cases (is_empty got)) [
      | inl e ↦ rw e (omega (arith, length-append got (joined rest)))
      | inr e ↦ rw e (
          omega
            (arith, length-append got (joined rest), read_loop-le fuel (suc m - length got) rest))
    ]
