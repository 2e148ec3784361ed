-- ===== src/Http2.antt =====
-- src/http2_session.cpp: the streams of a control connection and the data source that nghttp2
-- reads. nghttp2 itself is not modelled; the calls of it that answer a request are recorded.
pub mod Delivery
pub mod Streams
pub mod Drained
pub mod Output
use wirebone_cpp.Prelude.{
  ℕ, ◌+◌, ◌-◌, Bool, true, false, not, ◌&&◌, ◌||◌, Option, none, some, List, [], ◌∷◌, ◌++◌, Str,
  codes, length, take, drop, is_empty, str_eq, ltb, leb, ◌==◌, if◌then◌else◌, min,
}

pub record Stream : Type 0 where
  pub id : ℕ
  pub method : Str
  pub path : Str
  pub body : Str
  pub out : List ℕ
  pub out_off : ℕ
  pub streaming : Bool
  pub ended : Bool

-- A call of `nghttp2_submit_response`: stream, status, content type.
pub record Submitted : Type 0 where
  pub stream_id : ℕ
  pub status : ℕ
  pub content_type : Str

-- `streams_`, and the calls of nghttp2 that were made, the last one first.
pub record Server : Type 0 where
  pub streams : List Stream
  pub submitted : List Submitted
  pub resumed : List ℕ

unfoldable pub find_stream : ℕ → List Stream → Option Stream
find_stream id [] = none
find_stream id (s ∷ ss) = if s.id == id then some s else find_stream id ss

-- The change of a stream that is there; any other list stays.
unfoldable pub change_stream : ℕ → (Stream → Stream) → List Stream → List Stream
change_stream id f [] = []
change_stream id f (s ∷ ss) = if s.id == id then f s ∷ ss else s ∷ change_stream id f ss

unfoldable pub erase_stream : ℕ → List Stream → List Stream
erase_stream id [] = []
erase_stream id (s ∷ ss) = if s.id == id then erase_stream id ss else s ∷ erase_stream id ss

abbrev pub new_stream : ℕ → Stream
new_stream id = record {
  id = id;
  method = [];
  path = [];
  body = [];
  out = [];
  out_off = 0;
  streaming = false;
  ended = false;
}

-- `on_begin_headers` of a request.
unfoldable pub on_begin_headers : ℕ → Server → Server
on_begin_headers id v = record v { streams = new_stream id ∷ erase_stream id v.streams }

unfoldable pub on_header : ℕ → Str → Str → Server → Server
on_header id name value v = record v {
  streams =
      change_stream id
        (λ s.
          if str_eq name (codes ":method")
          then record s { method = value }
          else if str_eq name (codes ":path")
          then record s { path = value }
          else s)
        v.streams;
}

-- `on_data`
unfoldable pub on_data : ℕ → Str → Server → Server
on_data id bytes v = record v {
  streams = change_stream id (λ s. record s { body = s.body ++ bytes }) v.streams;
}

unfoldable pub on_close : ℕ → Server → Server
on_close id v = record v { streams = erase_stream id v.streams }

-- What `data_read` tells nghttp2: `NGHTTP2_ERR_DEFERRED`, or bytes and whether EOF is flagged.
pub data Read : Type 0 where
  deferred : Read
  chunk : List ℕ → Bool → Read

-- The case of `data_read` with nothing left.
unfoldable pub read_empty : Stream → Read
read_empty s =
    if s.ended && not s.streaming
    then chunk [] true
    else if s.streaming && not s.ended
    then deferred
    else chunk [] true

-- `data_read` with room for `room` bytes, and the stream after it.
unfoldable pub data_read : ℕ → Stream → Read × Stream
data_read room s =
    if leb (length s.out) s.out_off
    then (read_empty s, s)
    else let n = min room (length s.out - s.out_off) in
      let bytes = take n (drop s.out_off s.out) in
      if leb (length s.out) (s.out_off + n)
      then (chunk bytes (not s.streaming || s.ended), record s { out = []; out_off = 0 })
      else (chunk bytes false, record s { out_off = s.out_off + n })

-- `submit_response` on a stream that is there.
abbrev pub submit : ℕ → ℕ → Str → Server → Server
submit id status content_type v = record v {
  submitted = record { stream_id = id; status = status; content_type = content_type } ∷ v.submitted;
}

abbrev pub answered : List ℕ → Bool → Stream → Stream
answered body streaming s = record s {
  out = body;
  out_off = 0;
  streaming = streaming;
  ended = not streaming;
}

unfoldable pub reply : ℕ → ℕ → Str → List ℕ → Server → Server
reply id status content_type body v = elim (find_stream id v.streams) [
  | none ↦ v
  | some s ↦
      submit id status content_type
        (record v { streams = change_stream id (answered body false) v.streams })
]

unfoldable pub reply_stream_start : ℕ → ℕ → List ℕ → Server → Server
reply_stream_start id status first v = elim (find_stream id v.streams) [
  | none ↦ v
  | some s ↦
      submit id status (codes "application/json")
        (record v { streams = change_stream id (answered first true) v.streams })
]

abbrev pub pushed : List ℕ → Stream → Stream
pushed bytes s = record s { out = s.out ++ bytes }

unfoldable pub push_data : ℕ → List ℕ → Server → Server
push_data id bytes v = elim (find_stream id v.streams) [
  | none ↦ v
  | some s ↦ record v {
    streams = change_stream id (pushed bytes) v.streams;
    resumed = id ∷ v.resumed;
  }
]

abbrev pub closed : Stream → Stream
closed s = record s { ended = true; streaming = false }

unfoldable pub end_stream : ℕ → Server → Server
end_stream id v = elim (find_stream id v.streams) [
  | none ↦ v
  | some s ↦ record v { streams = change_stream id closed v.streams; resumed = id ∷ v.resumed }
]
