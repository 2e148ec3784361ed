-- ===== src/Noise/Agree.antt =====
-- The two sides of the handshake of src/noise.cpp come to the same keys.
use wirebone_cpp.Prelude.{
  ℕ, ◌≡◌, ◌<◌, ◌^◌, refl, sym, ap, ◌∙◌, true, some, List, [], ◌∷◌, ◌++◌, append-nil, length,
  length-append, take, drop, take-append, drop-append, get_or, replicate, ==_iff, ◌==◌, arith,
}
use wirebone_cpp.Crypto.Clamp.{generate_x25519_private}
use wirebone_cpp.Crypto.Primitives.{Primitives}
use wirebone_cpp.Noise.{
  good, NoiseResult, ClientState, put_be16, get_be16, zero_nonce, mix_hash, split_keys,
  initial_hash, start_hash, check_initiation, read_initiation, write_response,
  noise_server_handshake, noise_client_init, noise_client_finish,
}
use wirebone_cpp.Noise.Steps.{
  next_ck, next_k, mix_dh-shared, encrypt_and_hash_lem, decrypt_and_hash_lem,
}

module _ (c : Primitives) where
  open c use {public_key, shared, seal, unseal-seal, length-seal, length-public_key, shared_comm}

  module _ (version : ℕ) (raw_client raw_server machine_private control_private : List ℕ)
      (es ss ee se : List ℕ) where
    abbrev client_eph : List ℕ
    client_eph = generate_x25519_private raw_client

    abbrev server_eph : List ℕ
    server_eph = generate_x25519_private raw_server

    abbrev machine_public : List ℕ
    machine_public = public_key machine_private

    h0 : List ℕ
    h0 = mix_hash c (start_hash c version (public_key control_private)) (public_key client_eph)

    k1 : List ℕ
    k1 = next_k c es (initial_hash c)

    ck1 : List ℕ
    ck1 = next_ck c es (initial_hash c)

    sealed_key : List ℕ
    unfolding h0 k1
    sealed_key = seal k1 zero_nonce h0 machine_public

    h1 : List ℕ
    h1 = mix_hash c h0 sealed_key

    sealed_tag : List ℕ
    sealed_tag = seal (next_k c ss ck1) zero_nonce h1 []

    h2 : List ℕ
    h2 = mix_hash c h1 sealed_tag

    ck2 : List ℕ
    ck2 = next_ck c ss ck1

    initiation : List ℕ
    initiation =
        put_be16 version
        ++ (1 ∷ put_be16 96 ++ (public_key client_eph ++ (sealed_key ++ sealed_tag)))

    client_init_lem :
        shared client_eph (public_key control_private) ≡ some es
        → shared machine_private (public_key control_private) ≡ some ss
        → noise_client_init c raw_client machine_private (public_key control_private) version
          ≡ good (initiation, record { ephemeral_priv = client_eph; h = h2; ck = ck2 })
    unfolding noise_client_init initiation h0 h1 h2 ck1 ck2 k1 sealed_key sealed_tag
    client_init_lem e1 e2 = rw (
      mix_dh-shared c (initial_hash c) client_eph (public_key control_private) es e1,
      encrypt_and_hash_lem c h0 k1 machine_public 48
          (omega (arith, length-public_key machine_private)),
      mix_dh-shared c ck1 machine_private (public_key control_private) ss e2,
      encrypt_and_hash_lem c h1 (next_k c ss ck1) [] 16 (omega arith),
    )

    fields : List ℕ
    fields = public_key client_eph ++ (sealed_key ++ sealed_tag)

    length-sealed_key : length sealed_key ≡ 48
    unfolding sealed_key
    length-sealed_key =
        omega
          (arith, length-seal k1 zero_nonce h0 machine_public, length-public_key machine_private)

    length-sealed_tag : length sealed_tag ≡ 16
    unfolding sealed_tag
    length-sealed_tag = omega (arith, length-seal (next_k c ss ck1) zero_nonce h1 [])

    checked_initiation : check_initiation c initiation ≡ good tt
    unfolding check_initiation initiation
    checked_initiation =
        let size : (length initiation == 101) ≡ true = (==_iff (length initiation) 101).1 (
          omega (
            arith,
            length-append (public_key client_eph) (sealed_key ++ sealed_tag),
            length-append sealed_key sealed_tag,
            length-public_key client_eph,
            length-sealed_key,
            length-sealed_tag,
          )) in
        rw size

    version_field : version < 2 ^ 16 → get_be16 initiation 0 ≡ version
    unfolding initiation
    version_field lt = omega arith

    body_field : drop 5 initiation ≡ fields
    unfolding initiation fields
    body_field = refl

    eph_field : take 32 fields ≡ public_key client_eph
    unfolding fields
    eph_field = take-append (public_key client_eph) _ 32 (length-public_key client_eph)

    rest_field : drop 32 fields ≡ sealed_key ++ sealed_tag
    unfolding fields
    rest_field = drop-append (public_key client_eph) _ 32 (length-public_key client_eph)

    key_field : take 48 (drop 32 fields) ≡ sealed_key
    key_field = rw rest_field (take-append sealed_key sealed_tag 48 length-sealed_key)

    tag_field : take 16 (drop 48 (drop 32 fields)) ≡ sealed_tag
    tag_field =
        rw (rest_field, drop-append sealed_key sealed_tag 48 length-sealed_key)
          (ap (take 16) (sym (append-nil sealed_tag))
            ∙ take-append sealed_tag [] 16 length-sealed_tag)

    read_initiation_lem :
        version < 2 ^ 16
        → shared control_private (public_key client_eph) ≡ some es
        → shared control_private machine_public ≡ some ss
        → read_initiation c control_private initiation
          ≡ good (public_key client_eph, machine_public, ck2, h2)
    unfolding read_initiation h0 h1 h2 ck1 ck2 k1 sealed_key sealed_tag
    read_initiation_lem lt e1 e2 = rw (
      checked_initiation,
      body_field,
      eph_field,
      key_field,
      tag_field,
      version_field lt,
      mix_dh-shared c (initial_hash c) control_private (public_key client_eph) es e1,
      decrypt_and_hash_lem c h0 k1 machine_public 32 (length-public_key machine_private),
      mix_dh-shared c ck1 control_private machine_public ss e2,
      decrypt_and_hash_lem c h1 (next_k c ss ck1) [] 0 refl,
    )

    eph_shared : List ℕ
    eph_shared = public_key server_eph

    h3 : List ℕ
    h3 = mix_hash c h2 eph_shared

    ck3 : List ℕ
    ck3 = next_ck c ee ck2

    response_tag : List ℕ
    response_tag = seal (next_k c se ck3) zero_nonce h3 []

    response : List ℕ
    response = 2 ∷ put_be16 48 ++ (eph_shared ++ response_tag)

    -- What the two sides hold in the end.
    server_result : NoiseResult
    server_result = record {
      peer_machine_public = machine_public;
      protocol_version = version;
      handshake_hash = mix_hash c h3 response_tag;
      tx_key = (split_keys c (next_ck c se ck3)).1;
      rx_key = (split_keys c (next_ck c se ck3)).0;
    }

    client_result : NoiseResult
    client_result = record {
      peer_machine_public = replicate 32 0;
      protocol_version = 0;
      handshake_hash = mix_hash c h3 response_tag;
      tx_key = (split_keys c (next_ck c se ck3)).0;
      rx_key = (split_keys c (next_ck c se ck3)).1;
    }

    write_response_lem :
        shared server_eph (public_key client_eph) ≡ some ee
        → shared server_eph machine_public ≡ some se
        → write_response c version server_eph (public_key client_eph, machine_public, ck2, h2)
          ≡ good (response, server_result)
    unfolding write_response eph_shared h3 ck3 response_tag response server_result
    write_response_lem e3 e4 = rw (
      mix_dh-shared c ck2 server_eph (public_key client_eph) ee e3,
      mix_dh-shared c ck3 server_eph machine_public se e4,
      encrypt_and_hash_lem c h3 (next_k c se ck3) [] 16 (omega arith),
    )

    length-response_tag : length response_tag ≡ 16
    unfolding response_tag
    length-response_tag = omega (arith, length-seal (next_k c se ck3) zero_nonce h3 [])

    response_fields : List ℕ
    response_fields = eph_shared ++ response_tag

    response_size : (length response == 51) ≡ true
    unfolding response eph_shared
    response_size = (==_iff (length response) 51).1 (
        omega (
          arith,
          length-append (public_key server_eph) response_tag,
          length-public_key server_eph,
          length-response_tag,
        ))

    response_header : get_or response 0 0 ≡ 2
    unfolding response
    response_header = refl

    response_length : get_be16 response 1 ≡ 48
    unfolding response
    response_length = refl

    response_body : drop 3 response ≡ response_fields
    unfolding response response_fields
    response_body = refl

    response_eph : take 32 response_fields ≡ eph_shared
    unfolding response_fields eph_shared
    response_eph = take-append (public_key server_eph) _ 32 (length-public_key server_eph)

    response_rest : take 16 (drop 32 response_fields) ≡ response_tag
    unfolding response_fields eph_shared
    response_rest =
        rw (drop-append (public_key server_eph) response_tag 32 (length-public_key server_eph)) (
          ap (take 16) (sym (append-nil response_tag))
          ∙ take-append response_tag [] 16 length-response_tag)

    client_state : ClientState
    client_state = record { ephemeral_priv = client_eph; h = h2; ck = ck2 }

    client_finish_lem :
        shared client_eph (public_key server_eph) ≡ some ee
        → shared machine_private (public_key server_eph) ≡ some se
        → noise_client_finish c machine_private client_state response ≡ good client_result
    unfolding noise_client_finish client_state client_result h3 ck3 response_tag eph_shared
    client_finish_lem e3 e4 = rw (
      response_size,
      response_header,
      response_length,
      response_body,
      response_eph,
      response_rest,
      mix_dh-shared c ck2 client_eph (public_key server_eph) ee e3,
      mix_dh-shared c ck3 machine_private (public_key server_eph) se e4,
      decrypt_and_hash_lem c h3 (next_k c se ck3) [] 0 refl,
    )

    server_lem :
        version < 2 ^ 16
        → shared client_eph (public_key control_private) ≡ some es
        → shared machine_private (public_key control_private) ≡ some ss
        → shared client_eph (public_key server_eph) ≡ some ee
        → shared machine_private (public_key server_eph) ≡ some se
        → noise_server_handshake c raw_server control_private initiation
          ≡ good (response, server_result)
    unfolding noise_server_handshake
    server_lem lt e1 e2 e3 e4 = rw (
      read_initiation_lem lt (shared_comm control_private client_eph ∙ e1)
          (shared_comm control_private machine_private ∙ e2),
      version_field lt,
      write_response_lem (shared_comm server_eph client_eph ∙ e3)
          (shared_comm server_eph machine_private ∙ e4),
    )

-- A run of both sides, and what they then hold.
pub record Agreed (c : Primitives) (version : ℕ) (raw_client raw_server machine control : List ℕ)
    : Type 0 where
  pub init : List ℕ
  pub state : ClientState
  pub response : List ℕ
  pub server : NoiseResult
  pub client : NoiseResult
  pub starts :
      noise_client_init c raw_client machine (c.public_key control) version ≡ good (init, state)
  pub answers : noise_server_handshake c raw_server control init ≡ good (response, server)
  pub finishes : noise_client_finish c machine state response ≡ good client
  pub same_tx : server.tx_key ≡ client.rx_key
  pub same_rx : server.rx_key ≡ client.tx_key
  pub same_hash : server.handshake_hash ≡ client.handshake_hash
  pub peer : server.peer_machine_public ≡ c.public_key machine
  pub protocol : server.protocol_version ≡ version

-- Where the four derivations of shared secrets succeed and the version is a 16-bit number, a client
-- that knows the server's public key and the server complete the handshake: each accepts the other's message, each sends with the key
-- that the other receives with, their hashes are the same, and the server has learnt the client's
-- machine key and version.
pub handshake_agrees :
    (c : Primitives) (version : ℕ) (raw_client raw_server machine control es ss ee se : List ℕ)
    → version < 2 ^ 16
    → c.shared (generate_x25519_private raw_client) (c.public_key control) ≡ some es
    → c.shared machine (c.public_key control) ≡ some ss
    → c.shared
        (generate_x25519_private raw_client)
        (c.public_key (generate_x25519_private raw_server))
      ≡ some ee
    → c.shared machine (c.public_key (generate_x25519_private raw_server)) ≡ some se
    → Agreed c version raw_client raw_server machine control
unfolding server_result client_result client_state
handshake_agrees c version raw_client raw_server machine control es ss ee se lt e1 e2 e3 e4 =
    record {
      init = initiation c version raw_client raw_server machine control es ss ee se;
      state = client_state c version raw_client raw_server machine control es ss ee se;
      response = response c version raw_client raw_server machine control es ss ee se;
      server = server_result c version raw_client raw_server machine control es ss ee se;
      client = client_result c version raw_client raw_server machine control es ss ee se;
      starts = client_init_lem c version raw_client raw_server machine control es ss ee se e1 e2;
      answers =
          server_lem c version raw_client raw_server machine control es ss ee se lt e1 e2 e3 e4;
      finishes =
          client_finish_lem c version raw_client raw_server machine control es ss ee se e3 e4;
      same_tx = refl;
      same_rx = refl;
      same_hash = refl;
      peer = refl;
      protocol = refl;
    }
