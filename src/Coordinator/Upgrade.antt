-- ===== src/Coordinator/Upgrade.antt =====
-- The upgrade of a connection and the handshake on it (src/coordinator.cpp, src/noise.cpp).
use wirebone_cpp.Prelude.{
  ℕ, ◌≡◌, sym, ap, ◌∙◌, true, false, Option, some, List, ◌++◌, append-nil, append_assoc, Str, codes,
  is_empty, str_eq, Outcome, ok,
}
use wirebone_cpp.Json.{JsonLib}
use wirebone_cpp.Crypto.Primitives.{Primitives}
use wirebone_cpp.Crypto.Base64.{b64_decode}
use wirebone_cpp.Keys.{KeyKind, format_key}
use wirebone_cpp.Noise.Agree.{Agreed}
use wirebone_cpp.Noise.Records.{NoiseConn}
use wirebone_cpp.Socket.{Socket, write_loop}
use wirebone_cpp.Socket.Writing.{write_loop_lem}
use wirebone_cpp.Http1.{HttpRequest, header_get, read_http_request, write_all}
use wirebone_cpp.Coordinator.Connection.{
  Ended, upgraded, new_conn, switching, respond, switch_protocols, handle_ts2021, route, after_read,
  handle_client,
}

-- Where write_all returns `true`, everything was sent.
write_all_sent :
    (text : Str) (s : Socket)
    → (write_all text s).0 ≡ true
    → (write_all text s).1.sent ≡ s.sent ++ text
unfolding write_all
write_all_sent text s done =
    let (left, front, all) = write_loop_lem text s.room in
    ap (λ t. s.sent ++ t)
      (sym (append-nil _) ∙ ap (λ l. (write_loop text s.room).1 ++ l) (sym (all done)) ∙ front)

module _ (c : Primitives) (bio : Str → Option (List ℕ)) (lib : JsonLib) (version : ℕ)
    (raw_client raw_server machine control : List ℕ)
    (a : Agreed c version raw_client raw_server machine control) where
  -- The request asks for the upgrade and carries the client's initiation.
  pub record Asks (req : HttpRequest) : Type 0 where
    pub path : req.path ≡ codes "/ts2021"
    pub upgrade : header_get req (codes "upgrade") ≡ codes "tailscale-control-protocol"
    pub some_text : is_empty (header_get req (codes "x-tailscale-handshake")) ≡ false
    pub initiation : bio (header_get req (codes "x-tailscale-handshake")) ≡ some a.init

  -- What the socket takes of the two answers.
  pub record Takes (t : Socket) : Type 0 where
    pub first : (write_all switching t).0 ≡ true
    pub second : (write_all a.response (write_all switching t).1).0 ≡ true

  -- The connection is handed over for the client's machine, with the client's keys the other way
  -- round, and the two answers were sent.
  pub record HandedOver (t : Socket) (r : Outcome Ended) : Type 0 where
    pub conn : NoiseConn
    pub served : r ≡ ok (upgraded (format_key KeyKind.machine (c.public_key machine)) conn)
    pub same_tx : conn.tx_key ≡ a.client.rx_key
    pub same_rx : conn.rx_key ≡ a.client.tx_key
    pub sent : conn.socket.sent ≡ t.sent ++ (switching ++ a.response)

  Takes-HandedOver :
      (t : Socket)
      → Takes t
      → HandedOver t (switch_protocols c bio raw_server control (ok a.init) t)
  unfolding switch_protocols respond
  Takes-HandedOver t h =
      let u = (write_all switching t).1 in
      let v = (write_all a.response u).1 in
      record {
        conn = new_conn v a.server.tx_key a.server.rx_key;
        served = rw (h.first, a.answers, h.second, a.peer);
        same_tx = a.same_tx;
        same_rx = a.same_rx;
        sent =
            write_all_sent a.response u h.second
            ∙ ap (λ x. x ++ a.response) (write_all_sent switching t h.first)
            ∙ append_assoc t.sent switching a.response;
      }

  decoded :
      (text : Str)
      → is_empty text ≡ false
      → bio text ≡ some a.init
      → b64_decode bio text ≡ ok a.init
  unfolding b64_decode
  decoded text some_text e = rw (some_text, e)

  asked :
      (req : HttpRequest) (t : Socket)
      → Asks req
      → handle_ts2021 c bio raw_server control req t
        ≡ switch_protocols c bio raw_server control (ok a.init) t
  unfolding handle_ts2021
  asked req t h = rw (
    h.upgrade,
    h.some_text,
    decoded (header_get req (codes "x-tailscale-handshake")) h.some_text h.initiation,
  )

  routed :
      (req : HttpRequest) (t : Socket)
      → Asks req
      → route c bio lib raw_server control req t ≡ handle_ts2021 c bio raw_server control req t
  unfolding route
  routed req t h =
      let tested : (p : Str) → str_eq req.path p ≡ str_eq (codes "/ts2021") p =
        λ p. ap (λ x. str_eq x p) h.path in
      rw (tested (codes "/key"), tested (codes "/healthz"), tested (codes "/ts2021"))

  -- Where a client's handshake with the server's key agrees, its request for the upgrade is read, and
  -- the socket takes both answers, the connection is handed over for the client's machine with keys
  -- that match the client's, and what was sent is the switch of protocols and then the response.
  pub handle_client_upgrades :
      (s t : Socket) (req : HttpRequest) (extra : Str)
      → read_http_request s ≡ (some (req, extra), t)
      → Asks req
      → Takes t
      → HandedOver t (handle_client c bio lib raw_server control s)
  unfolding handle_client after_read
  handle_client_upgrades s t req extra read asks takes =
      let same : handle_client c bio lib raw_server control s
          ≡ switch_protocols c bio raw_server control (ok a.init) t =
        ap (after_read c bio lib raw_server control) read ∙ routed req t asks ∙ asked req t asks in
      rw same (Takes-HandedOver t takes)
