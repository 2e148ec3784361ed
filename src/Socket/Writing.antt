-- ===== src/Socket/Writing.antt =====
-- What write_full has sent when it returns (src/noise.cpp).
use wirebone_cpp.Prelude.{
  ℕ, zero, suc, ◌≤◌, ◌<◌, ◌≡◌, refl, ap, ◌∙◌, true, false, arith, List, [], ◌∷◌, ◌++◌, append_assoc,
  take, drop, take-append-drop, min, length, ◌==◌, inl, inr, Bool-cases,
}
use wirebone_cpp.Socket.{write_loop}

-- What is sent is the front of the bytes, and all of them where the result is `true`.
pub write_loop_lem :
    (bytes room : List ℕ)
    → (left : List ℕ) × ((write_loop bytes room).1 ++ left ≡ bytes)
      × ((write_loop bytes room).0 ≡ true → left ≡ [])
unfolding write_loop
write_loop_lem [] room = ([], refl, λ e. refl)
write_loop_lem (b ∷ bytes) [] = (b ∷ bytes, refl, λ e. cc)
write_loop_lem (b ∷ bytes) (k ∷ room) = elim (Bool-cases (k == 0)) [
  | inl e ↦ rw e (b ∷ bytes, refl, λ f. cc)
  | inr e ↦
      let n = min k (length (b ∷ bytes)) in
      let (left, same, all) = write_loop_lem (drop n (b ∷ bytes)) room in
      rw e (
        left,
        append_assoc (take n (b ∷ bytes)) (write_loop (drop n (b ∷ bytes)) room).1 left
            ∙ ap (λ t. take n (b ∷ bytes) ++ t) same
            ∙ take-append-drop n (b ∷ bytes),
        all,
      )
]

dropped_all : (n : ℕ) (xs : List ℕ) → length xs ≤ n → drop n xs ≡ []
dropped_all zero [] h = refl
dropped_all zero (x ∷ xs) h = absurd (omega arith)
dropped_all (suc n) [] h = refl
dropped_all (suc n) (x ∷ xs) h = dropped_all n xs (omega arith)

-- With room for all of the bytes at once, they are sent.
pub write_loop_room :
    (bytes : List ℕ) (k : ℕ) (room : List ℕ)
    → length bytes < k
    → ((write_loop bytes (k ∷ room)).0 ≡ true)
unfolding write_loop
write_loop_room [] k room h = refl
write_loop_room (b ∷ bytes) k room h =
    let some_room : (k == 0) ≡ false = ground arith in
    let all : drop (min k (length (b ∷ bytes))) (b ∷ bytes) ≡ [] =
      dropped_all (min k (length (b ∷ bytes))) (b ∷ bytes) (omega arith) in
    rw (some_room, all)
