-- ===== src/Tests/Handshake.antt =====
-- A handshake with the stand-in primitives.
use wirebone_cpp.Prelude.{ℕ, refl, List, replicate, arith}
use wirebone_cpp.Crypto.Clamp.{generate_x25519_private}
use wirebone_cpp.Noise.Agree.{Agreed, handshake_agrees}
use wirebone_cpp.Samples.{sample_primitives, padded, sum}

abbrev pub raw_client : List ℕ
raw_client = replicate 32 7

abbrev pub raw_server : List ℕ
raw_server = replicate 32 9

abbrev pub machine : List ℕ
machine = replicate 32 64

abbrev pub control : List ℕ
control = replicate 32 72

abbrev secret : List ℕ → List ℕ → List ℕ
secret priv other = sum (padded priv) (padded other)

handshake_agrees_example : Agreed sample_primitives 49 raw_client raw_server machine control
handshake_agrees_example =
    handshake_agrees sample_primitives 49 raw_client raw_server machine control
      (secret (generate_x25519_private raw_client) control) (secret machine control)
      (secret (generate_x25519_private raw_client) (generate_x25519_private raw_server))
      (secret machine (generate_x25519_private raw_server)) (omega arith) refl refl refl refl

-- What both sides make of it.
abbrev pub agreed : Agreed sample_primitives 49 raw_client raw_server machine control
agreed =
    handshake_agrees sample_primitives 49 raw_client raw_server machine control
      (secret (generate_x25519_private raw_client) control) (secret machine control)
      (secret (generate_x25519_private raw_client) (generate_x25519_private raw_server))
      (secret machine (generate_x25519_private raw_server)) (omega arith) refl refl refl refl
