-- ===== src/Netmap/Frame.antt =====
-- Map frames: encode_map_frame (src/netmap.cpp) against a reader of frames.
use wirebone_cpp.Prelude.{
  ℕ, ◌≡◌, ◌<◌, ◌+◌, ◌*◌, ◌^◌, refl, ap, ◌∙◌, Bool, Option, none, some, List, ◌∷◌, ◌++◌, length,
  take, drop, take-append, drop-append, append_assoc, length-append, ◌/◌, ◌%◌, false, arith, ok,
  ltb, if◌then◌else◌,
}
use wirebone_cpp.Json.{JsonLib}
use wirebone_cpp.Netmap.{Compress, encode_map_frame, length_bytes}

-- A reader of the format: four bytes of length, low one first, then the payload and what follows.
abbrev pub read_frame : List ℕ → Option (List ℕ × List ℕ)
read_frame (a ∷ b ∷ c ∷ d ∷ rest) =
    let n = a + b * 2 ^ 8 + c * 2 ^ 16 + d * 2 ^ 24 in
    if ltb (length rest) n then none else some (take n rest, drop n rest)
read_frame _ = none

read_frame-length_bytes :
    (payload rest : List ℕ)
    → length payload < 2 ^ 32
    → read_frame (length_bytes (length payload) ++ (payload ++ rest)) ≡ some (payload, rest)
read_frame-length_bytes payload rest h =
    let n = length payload in
    let len = n % 2 ^ 32 in
    let whole : len % 256
          + len / 2 ^ 8 % 256 * 2 ^ 8
          + len / 2 ^ 16 % 256 * 2 ^ 16
          + len / 2 ^ 24 % 256 * 2 ^ 24
        ≡ n =
      omega arith in
    let room : ltb (length (payload ++ rest)) n ≡ false =
      ground (arith, length-append payload rest) in
    rw (whole, room, take-append payload rest n refl, drop-append payload rest n refl)

-- Where the message has a text and that text can be compressed to less than 4 GiB, the frame is
-- made, and with anything behind it is read back as the compressed text.
pub encode_map_frame_lem :
    (lib : JsonLib) (compress : Compress) (msg : lib.Json) (zstd : Bool)
    (json payload rest : List ℕ)
    → lib.dump msg ≡ some json
    → compress json ≡ some payload
    → length payload < 2 ^ 32
    → (frame : List ℕ) × (encode_map_frame lib compress msg zstd ≡ ok frame)
      × (read_frame (frame ++ rest) ≡ some (payload, rest))
unfolding encode_map_frame
encode_map_frame_lem lib compress msg zstd json payload rest dumped packed short = (
  length_bytes (length payload) ++ payload,
  rw (dumped, packed),
  ap read_frame (append_assoc (length_bytes (length payload)) payload rest)
      ∙ read_frame-length_bytes payload rest short,
)
