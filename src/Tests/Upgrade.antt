-- ===== src/Tests/Upgrade.antt =====
-- A request that is read and upgraded.
use wirebone_cpp.Prelude.{
  ℕ, ◌≡◌, ◌+◌, ◌++◌, refl, some, Option, List, [], ◌∷◌, Str, codes, length, take, drop, arith,
}
use wirebone_cpp.Prelude.Decimal.{is_space, skip_space}
use wirebone_cpp.Socket.{Socket, joined, recv_from, write_loop}
use wirebone_cpp.Socket.Writing.{write_loop_room}
use wirebone_cpp.Http1.{
  HttpRequest, header_get, read_http_request, read_head, cut_head, is_blank_line, parse_head,
  first_line, add_headers, set_header, without_cr, word, skip_blank, write_all,
}
use wirebone_cpp.Http1.Head.{read_http_request_lem}
use wirebone_cpp.Coordinator.Connection.{handle_client}
use wirebone_cpp.Coordinator.Upgrade.{Asks, Takes, HandedOver, handle_client_upgrades}
use wirebone_cpp.Samples.{sample_primitives, sample_json}
use wirebone_cpp.Tests.Handshake.{raw_client, raw_server, machine, control, agreed}

abbrev head : Str
head =
    codes
      "POST /ts2021?v=1 HTTP/1.1\r\nUpgrade: tailscale-control-protocol\r\nX-Tailscale-Handshake: AQ=="

abbrev pub request : HttpRequest
request = record {
  method = codes "POST";
  target = codes "/ts2021?v=1";
  path = codes "/ts2021";
  query = codes "v=1";
  headers =
      (codes "upgrade", codes "tailscale-control-protocol")
      ∷ (codes "x-tailscale-handshake", codes "AQ==")
      ∷ [];
}

head_parsed : parse_head head ≡ some request
unfolding parse_head first_line add_headers set_header without_cr word skip_blank is_space
    skip_space
head_parsed = refl

abbrev text : Str
text = head ++ (codes "\r\n\r\n" ++ 9 ∷ [])

abbrev pub arriving : Socket
arriving = record {
  incoming = take 40 text ∷ drop 40 text ∷ [];
  room = 200 ∷ (length agreed.response + 1) ∷ [];
  sent = [];
}

text_cut : cut_head (joined arriving.incoming) ≡ some (head, 9 ∷ [])
unfolding cut_head is_blank_line
text_cut = refl

read_http_request_lem_example :
    (extra : Str) × ((read_http_request arriving).0 ≡ some (request, extra))
    × (extra ++ joined (read_http_request arriving).1.incoming ≡ 9 ∷ [])
read_http_request_lem_example =
    read_http_request_lem arriving head (9 ∷ []) request (omega arith, (omega arith, tt))
      (omega arith) text_cut head_parsed

abbrev pub left : Socket
left = record arriving { incoming = [] }

pub arriving_read : read_http_request arriving ≡ (some (request, 9 ∷ []), left)
unfolding read_http_request read_head recv_from cut_head is_blank_line parse_head first_line
    add_headers set_header without_cr word skip_blank is_space skip_space
arriving_read = refl

-- A stand-in for the base64 of OpenSSL.
abbrev pub bio : Str → Option (List ℕ)
bio t = some agreed.init

pub request-Asks :
    Asks sample_primitives bio sample_json 49 raw_client raw_server machine control agreed request
unfolding header_get
request-Asks = record { path = refl; upgrade = refl; some_text = refl; initiation = refl }

pub left-Takes :
    Takes sample_primitives bio sample_json 49 raw_client raw_server machine control agreed left
unfolding write_all write_loop
left-Takes = record {
  first = refl;
  second = write_loop_room agreed.response (length agreed.response + 1) [] (omega arith);
}

handle_client_upgrades_example :
    HandedOver sample_primitives bio sample_json 49 raw_client raw_server machine control agreed
      left
      (handle_client sample_primitives bio sample_json raw_server control arriving)
handle_client_upgrades_example =
    handle_client_upgrades sample_primitives bio sample_json 49 raw_client raw_server machine
      control agreed arriving left request (9 ∷ []) arriving_read request-Asks left-Takes
