-- ===== src/Http1.antt =====
-- src/http1.cpp and src/http1.hpp: the requests that come before a connection is upgraded.
pub mod Head
use wirebone_cpp.Prelude.{
  ℕ, zero, suc, Bool, true, false, ◌||◌, Option, none, some, List, [], ◌∷◌, ◌++◌, Str, codes, lower,
  str_eq, split_at, lookup, length, take, drop, is_empty, ltb, leb, ◌==◌, if◌then◌else◌,
}
use wirebone_cpp.Prelude.Decimal.{to_string, is_space, skip_space}
use wirebone_cpp.Socket.{Socket, recv_from, write_loop}

-- `headers` is a `std::map` of which only `find` and `[]` are used.
pub record HttpRequest : Type 0 where
  pub method : Str
  pub target : Str
  pub path : Str
  pub query : Str
  pub headers : List (Str × Str)

unfoldable pub write_all : Str → Socket → Bool × Socket
write_all text s =
    let (done, out, rest) = write_loop text s.room in
    (done, record s { room = rest; sent = s.sent ++ out })

unfoldable pub response_text : ℕ → Str → Str → Str → Str
response_text status status_text content_type body =
    codes "HTTP/1.1 "
    ++ (to_string status
        ++ (codes " "
            ++ (status_text
                ++ (codes "\r\nContent-Type: "
                    ++ (content_type
                        ++ (codes "\r\nContent-Length: "
                            ++ (to_string (length body)
                                ++ (codes "\r\nConnection: close\r\n\r\n" ++ body))))))))

-- Whether all was sent is not looked at.
unfoldable pub write_http_response : ℕ → Str → Str → Str → Socket → Socket
write_http_response status status_text content_type body s =
    (write_all (response_text status status_text content_type body) s).1

abbrev pub or_empty : Option Str → Str
or_empty none = []
or_empty (some t) = t

unfoldable pub header_get : HttpRequest → Str → Str
header_get req name = or_empty (lookup (lower name) req.headers)

-- A part of a query: what is before its first '=' and what is behind.
abbrev pub key_and_value : Str → Str × Str
key_and_value part = elim (split_at b'=' part) [ none ↦ (part, []) | some kv ↦ kv ]

-- The loop of query_get on what is behind `start`; each round takes one byte at least.
unfoldable pub query_loop : ℕ → Str → Str → Str
query_loop zero rest key = []
query_loop (suc fuel) [] key = []
query_loop (suc fuel) (c ∷ s) key = elim (split_at b'&' (c ∷ s)) [
  | none ↦ let (k, v) = key_and_value (c ∷ s) in if str_eq k key then v else []
  | some (part, rest) ↦
      let (k, v) = key_and_value part in
      let later = query_loop fuel rest key in if str_eq k key then v else later
]

unfoldable pub query_get : Str → Str → Str
query_get query key = query_loop (length query) query key

abbrev pub cons_head : ℕ → Option (Str × Str) → Option (Str × Str)
cons_head c none = none
cons_head c (some (a, b)) = some (c ∷ a, b)

-- `"\r\n\r\n"` is here.
unfoldable pub is_blank_line : Str → Bool
is_blank_line s = str_eq (take 4 s) (codes "\r\n\r\n")

-- What is before the first empty line and what is behind it.
unfoldable pub cut_head : Str → Option (Str × Str)
cut_head [] = none
cut_head (c ∷ s) =
    let rest = cons_head c (cut_head s) in
    if is_blank_line (c ∷ s) then some ([], drop 4 (c ∷ s)) else rest

-- The loop over `recv` with a buffer of 1024 bytes, on what was read: the head and what is behind
-- it, `none` for `false`. Each round that goes on reads a byte at least, and none goes on past
-- 64 KiB, so that 65537 rounds are enough.
unfoldable pub read_head : ℕ → Str → List (List ℕ) → Option (Str × Str) × List (List ℕ)
read_head zero buf pieces = (none, pieces)
read_head (suc fuel) buf pieces = elim (cut_head buf) [
  | some found ↦ (some found, pieces)
  | none ↦
      let (got, rest) = recv_from 1024 pieces in
      let more = read_head fuel (buf ++ got) rest in
      if is_empty got || ltb 65536 (length (buf ++ got)) then (none, rest) else more
]

abbrev pub onto_first : ℕ → List Str → List Str
onto_first c [] = (c ∷ []) ∷ []
onto_first c (l ∷ ls) = (c ∷ l) ∷ ls

-- The lines that `std::getline` takes from a text.
abbrev pub lines : Str → List Str
lines [] = []
lines (c ∷ s) = if c == b'\n' then [] ∷ lines s else onto_first c (lines s)

-- A carriage return at the end is taken away.
unfoldable pub without_cr : Str → Str
without_cr [] = []
without_cr (c ∷ []) = if c == b'\r' then [] else c ∷ []
without_cr (c ∷ d ∷ s) = c ∷ without_cr (d ∷ s)

-- `>>` into a string: the next word, and what is behind it.
unfoldable pub word : Str → Str × Str
word [] = ([], [])
word (c ∷ s) = let (w, rest) = word s in if is_space c then ([], c ∷ s) else (c ∷ w, rest)

unfoldable pub skip_blank : Str → Str
skip_blank [] = []
skip_blank (c ∷ s) = if c == b' ' || c == b'\t' then skip_blank s else c ∷ s

-- `headers[name] = value`
unfoldable pub set_header : Str → Str → List (Str × Str) → List (Str × Str)
set_header name value [] = (name, value) ∷ []
set_header name value ((k, v) ∷ hs) =
    if str_eq k name then (k, value) ∷ hs else (k, v) ∷ set_header name value hs

-- The lines behind the first one; a line without a colon is skipped.
unfoldable pub add_headers : List Str → List (Str × Str) → List (Str × Str)
add_headers [] hs = hs
add_headers (l ∷ ls) hs = elim (split_at b':' (without_cr l)) [
  | none ↦ add_headers ls hs
  | some (name, value) ↦ add_headers ls (set_header (lower name) (skip_blank value) hs)
]

unfoldable pub first_line : Str → List (Str × Str) → HttpRequest
first_line line headers =
    let (method, rest) = word (skip_space line) in
    let target : Str = (word (skip_space rest)).0 in
    elim (split_at b'?' target) [
      | none ↦ record {
        method = method;
        target = target;
        path = target;
        query = [];
        headers = headers;
      }
      | some (path, query) ↦ record {
        method = method;
        target = target;
        path = path;
        query = query;
        headers = headers;
      }
    ]

-- What is made of the head.
unfoldable pub parse_head : Str → Option HttpRequest
parse_head head = elim (lines head) [
  | [] ↦ none
  | (l ∷ ls) ↦ some (first_line (without_cr l) (add_headers ls []))
]

abbrev pub with_extra : Str → Option HttpRequest → Option (HttpRequest × Str)
with_extra extra none = none
with_extra extra (some req) = some (req, extra)

-- The request and what was read behind its head; `none` for `false`.
unfoldable pub read_http_request : Socket → Option (HttpRequest × Str) × Socket
read_http_request s =
    let (found, rest) = read_head 65537 [] s.incoming in
    let left : Socket = record s { incoming = rest } in
    elim found [
      | none ↦ (none, left)
      | some (head, extra) ↦ (with_extra extra (parse_head head), left)
    ]
