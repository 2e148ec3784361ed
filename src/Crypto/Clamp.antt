-- ===== src/Crypto/Clamp.antt =====
-- generate_x25519_private of src/crypto.cpp: random bytes made into an X25519 key.
use Prim.Native.Nat.{bit_and, bit_or}
use wirebone_cpp.Prelude.{ℕ, List, [], ◌∷◌, ◌++◌, take, drop, map}

-- `priv[0] &= 248`, then `priv[31] &= 127` and `priv[31] |= 64`, on the 32 random bytes.
unfoldable pub generate_x25519_private : List ℕ → List ℕ
generate_x25519_private [] = []
generate_x25519_private (b ∷ raw) =
    bit_and b 248 ∷ (take 30 raw ++ map (λ l. bit_or (bit_and l 127) 64) (drop 30 raw))
