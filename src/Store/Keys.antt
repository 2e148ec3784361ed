-- ===== src/Store/Keys.antt =====
-- Preauth keys: create_preauth_key, preauth_keys and both consume_preauth (src/state.cpp).
pub mod Consume
pub mod Repeat
pub mod Registry
pub mod Spent
use wirebone_cpp.Prelude.{
  ℕ, Bool, true, false, not, ◌&&◌, ◌||◌, Option, none, some, List, [], ◌∷◌, ◌++◌, Str, codes,
  is_empty, str_eq, ℤ, pos, ltb_ℤ, is_zero_ℤ, ◌+ℤ◌, Outcome, ok, throws, Fault, or_throw,
  if◌then◌else◌,
}
use wirebone_cpp.Crypto.Hex.{hex_encode}
use wirebone_cpp.Json.{JsonLib}
use wirebone_cpp.Store.Types.{
  PreauthKey, PreauthClaim, Store, M, ◌>>=◌, ◌>>◌, next, lift, modify, gets,
}
use wirebone_cpp.Store.Persist.{save, reload_keys_from_disk}

-- `random_token`, on 32 random bytes.
abbrev pub random_token : List ℕ → Str
random_token raw = codes "wbkey-" ++ hex_encode raw

abbrev pub resolve_shared : Str → Option Bool → Bool
resolve_shared token none = is_empty token
resolve_shared token (some b) = b

unfoldable pub preauth_keys : Store → List PreauthKey
preauth_keys s = s.keys

abbrev pub claim_of : PreauthKey → PreauthClaim
claim_of k = record { ephemeral = k.ephemeral; token = k.token; shared = k.shared }

abbrev pub expired : ℤ → PreauthKey → Bool
expired now k = not (is_zero_ℤ k.expires_unix) && ltb_ℤ k.expires_unix now

abbrev pub keep_key :
    PreauthKey → Option (PreauthClaim × List PreauthKey) → Option (PreauthClaim × List PreauthKey)
keep_key k none = none
keep_key k (some (c, ks)) = some (c, k ∷ ks)

-- The loop of `consume_preauth`: the claim and the keys after it, or `none` for `return false`.
unfoldable pub claim_key : ℤ → Str → List PreauthKey → Option (PreauthClaim × List PreauthKey)
claim_key now key [] = none
claim_key now key (k ∷ ks) =
    if not (str_eq k.key key)
    then keep_key k (claim_key now key ks)
    else if expired now k
    then none
    else if not k.reusable && k.used
    then none
    else some (claim_of k, record k { used = true } ∷ ks)

module _ (lib : JsonLib) where
  -- `raw` are the random bytes, `none` where `RAND_bytes` fails; `now` is the clock in seconds.
  unfoldable pub create_preauth_key :
      Option (List ℕ) → ℤ → Bool → Bool → ℤ → Str → Option Bool → M Str
  create_preauth_key raw now reusable ephemeral expiration token shared = do
    bytes ← lift (or_throw Fault.runtime_error raw)
    let key = random_token bytes
    let k : PreauthKey = record {
      key = key;
      reusable = reusable;
      ephemeral = ephemeral;
      used = false;
      expires_unix = if ltb_ℤ (pos 0) expiration then now +ℤ expiration else pos 0;
      token = token;
      shared = resolve_shared token shared;
    }
    modify (λ s. record s { keys = s.keys ++ k ∷ [] })
    save lib
    lift (ok key)

  -- What is done with the result of the loop.
  unfoldable pub finish_claim : Option (PreauthClaim × List PreauthKey) → M (Option PreauthClaim)
  finish_claim none = lift (ok none)
  finish_claim (some (claim, ks)) = do
    modify (λ s. record s { keys = ks })
    save lib
    lift (ok (some claim))

  -- `none` is the result `false`, and leaves the caller's claim as it was.
  unfoldable pub consume_preauth : ℤ → Str → M (Option PreauthClaim)
  consume_preauth now key = do
    reload_keys_from_disk lib
    s ← gets (λ s. s.keys)
    finish_claim (claim_key now key s)

  -- The overload with a `bool&`: its value afterwards and the result.
  unfoldable pub consume_preauth_ephemeral : ℤ → Str → Bool → M (Bool × Bool)
  consume_preauth_ephemeral now key ephemeral = do
    claim ← consume_preauth now key
    lift (elim claim [ none ↦ ok (ephemeral, false) | some c ↦ ok (c.ephemeral, true) ])
