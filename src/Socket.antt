-- ===== src/Socket.antt =====
-- A connected stream socket, and the loops over it: read_full and write_full of src/noise.cpp.
pub mod Reading
pub mod Writing
pub mod Opening
use wirebone_cpp.Prelude.{
  ℕ, zero, suc, ◌-◌, Bool, true, false, Option, none, some, List, [], ◌∷◌, ◌++◌, length, take, drop,
  is_empty, min, leb, ◌==◌, if◌then◌else◌,
}

-- What the system will do with a socket: the pieces that `recv` will find, one at a time (an empty
-- one, or none left, is a result of 0 or less), the room that each `send` will find (0, or none
-- left, is a failure), and the bytes that were sent.
pub record Socket : Type 0 where
  pub incoming : List (List ℕ)
  pub room : List ℕ
  pub sent : List ℕ

-- The bytes that will arrive.
abbrev pub joined : List (List ℕ) → List ℕ
joined [] = []
joined (piece ∷ pieces) = piece ++ joined pieces

-- `recv` with a buffer of `n` bytes: what it read, and what is left to read.
unfoldable pub recv_from : ℕ → List (List ℕ) → List ℕ × List (List ℕ)
recv_from n [] = ([], [])
recv_from n (piece ∷ pieces) =
    if leb (length piece) n then (piece, pieces) else (take n piece, drop n piece ∷ pieces)

abbrev pub prefixed : List ℕ → Option (List ℕ) → Option (List ℕ)
prefixed got none = none
prefixed got (some more) = some (got ++ more)

-- The loop of `read_full`, with `need` bytes to go; each round reads one at least.
unfoldable pub read_loop : ℕ → ℕ → List (List ℕ) → Option (List ℕ) × List (List ℕ)
read_loop fuel zero pieces = (some [], pieces)
read_loop zero (suc m) pieces = (none, pieces)
read_loop (suc fuel) (suc m) pieces =
    let (got, rest) = recv_from (suc m) pieces in
    let (more, end) = read_loop fuel (suc m - length got) rest in
    if is_empty got then (none, rest) else (prefixed got more, end)

-- The bytes that were read, `none` for `false`.
unfoldable pub read_full : ℕ → Socket → Option (List ℕ) × Socket
read_full n s = let (r, rest) = read_loop n n s.incoming in (r, record s { incoming = rest })

-- The loop of `write_full`: whether all was sent, the bytes that were, and the room that is left.
unfoldable pub write_loop : List ℕ → List ℕ → Bool × List ℕ × List ℕ
write_loop [] room = (true, [], room)
write_loop (b ∷ bytes) [] = (false, [], [])
write_loop (b ∷ bytes) (k ∷ room) =
    let n = min k (length (b ∷ bytes)) in
    let (done, out, rest) = write_loop (drop n (b ∷ bytes)) room in
    if k == 0 then (false, [], room) else (done, take n (b ∷ bytes) ++ out, rest)

unfoldable pub write_full : List ℕ → Socket → Bool × Socket
write_full bytes s =
    let (done, out, rest) = write_loop bytes s.room in
    (done, record s { room = rest; sent = s.sent ++ out })
