-- ===== src/Coordinator/Connection.antt =====
-- src/coordinator.cpp: handle_client and handle_ts2021, from the first request of a connection to
-- its upgrade.
use wirebone_cpp.Prelude.{
  ℕ, not, Option, none, some, List, [], ◌∷◌, ◌++◌, Str, codes, is_empty, str_eq, Outcome, ok,
  throws, Fault, or_throw, if◌then◌else◌,
}
use wirebone_cpp.Prelude.Chain.{◌>>=◌}
use wirebone_cpp.Json.{JsonLib}
use wirebone_cpp.Crypto.Primitives.{Primitives}
use wirebone_cpp.Crypto.Base64.{b64_decode}
use wirebone_cpp.Keys.{KeyKind, format_key, zero_machine_key}
use wirebone_cpp.Noise.{Shake, good, failed, threw, NoiseResult, noise_server_handshake}
use wirebone_cpp.Noise.Records.{NoiseConn}
use wirebone_cpp.Socket.{Socket}
use wirebone_cpp.Http1.{HttpRequest, header_get, read_http_request, write_all, write_http_response}

-- How the handling of the first request ends: the connection is closed, or serve_h2 goes on with it
-- for a machine.
pub data Ended : Type 0 where
  closed : Socket → Ended
  upgraded : Str → NoiseConn → Ended

-- The constructor of `NoiseConn`.
abbrev pub new_conn : Socket → List ℕ → List ℕ → NoiseConn
new_conn s tx_key rx_key = record {
  socket = s;
  tx_key = tx_key;
  rx_key = rx_key;
  tx_nonce = 0;
  rx_nonce = 0;
  plaintext = [];
}

abbrev pub switching : Str
switching =
    codes "HTTP/1.1 101 Switching Protocols\r\n"
    ++ (codes "Upgrade: tailscale-control-protocol\r\n" ++ codes "Connection: upgrade\r\n\r\n")

abbrev pub bad_request : Str → Socket → Ended
bad_request text s =
    closed (write_http_response 400 (codes "Bad Request") (codes "text/plain") text s)

-- The response of the handshake is written, and the connection handed over.
unfoldable pub respond : Shake (List ℕ × NoiseResult) → Socket → Outcome Ended
respond (failed e) s = ok (closed s)
respond threw s = throws Fault.runtime_error
respond (good (resp, nr)) s =
    let (sent, t) = write_all resp s in
    if not sent
    then ok (closed t)
    else ok (
        upgraded (format_key KeyKind.machine nr.peer_machine_public)
          (new_conn t nr.tx_key nr.rx_key))

unfoldable pub noise_public_text : Primitives → List ℕ → Str
noise_public_text p noise_private = format_key KeyKind.machine (p.public_key noise_private)

module _ (p : Primitives) (bio : Str → Option (List ℕ)) where
  -- From the decoded initiation on; `raw` are the random bytes of the server's new key.
  unfoldable pub switch_protocols : List ℕ → List ℕ → Outcome (List ℕ) → Socket → Outcome Ended
  switch_protocols raw noise_private (throws e) s = ok (bad_request (codes "bad handshake\n") s)
  switch_protocols raw noise_private (ok init) s =
      let (sent, t) = write_all switching s in
      if not sent
      then ok (closed t)
      else respond (noise_server_handshake p raw noise_private init) t

  unfoldable pub handle_ts2021 : List ℕ → List ℕ → HttpRequest → Socket → Outcome Ended
  handle_ts2021 raw noise_private req s =
      let init_b64 = header_get req (codes "x-tailscale-handshake") in
      if not (str_eq (header_get req (codes "upgrade")) (codes "tailscale-control-protocol"))
      then ok (bad_request (codes "missing upgrade\n") s)
      else if is_empty init_b64
      then ok (bad_request (codes "missing handshake\n") s)
      else switch_protocols raw noise_private (b64_decode bio init_b64) s

  module _ (lib : JsonLib) where
    open lib use {of_str, object, dump}

    unfoldable pub key_reply : List ℕ → Socket → Outcome Ended
    key_reply noise_private s = do
      body ← or_throw Fault.type_error (
          dump (
            object (
              (codes "legacyPublicKey", of_str zero_machine_key)
              ∷ (codes "publicKey", of_str (noise_public_text p noise_private))
              ∷ [])))
      ok (closed (write_http_response 200 (codes "OK") (codes "application/json") body s))

    -- The request and the socket behind it; what was read behind the head is dropped.
    unfoldable pub route : List ℕ → List ℕ → HttpRequest → Socket → Outcome Ended
    route raw noise_private req s =
        if str_eq req.path (codes "/key")
        then key_reply noise_private s
        else if str_eq req.path (codes "/healthz")
        then ok
            (closed (write_http_response 200 (codes "OK") (codes "text/plain") (codes "ok\n") s))
        else if str_eq req.path (codes "/ts2021")
        then handle_ts2021 raw noise_private req s
        else ok (
            closed (
              write_http_response 404 (codes "Not Found") (codes "text/plain") (codes "not found\n")
                s))

    -- What is done with the result of `read_http_request`.
    unfoldable pub after_read :
        List ℕ → List ℕ → Option (HttpRequest × Str) × Socket → Outcome Ended
    after_read raw noise_private (none, t) = ok (closed t)
    after_read raw noise_private (some (req, extra), t) = route raw noise_private req t

    unfoldable pub handle_client : List ℕ → List ℕ → Socket → Outcome Ended
    handle_client raw noise_private s = after_read raw noise_private (read_http_request s)
