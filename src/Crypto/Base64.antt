-- ===== src/Crypto/Base64.antt =====
-- b64_decode of src/crypto.cpp.
use wirebone_cpp.Prelude.{
  ℕ, Option, List, [], Str, is_empty, Outcome, ok, Fault, or_throw, if◌then◌else◌,
}

-- `bio` is what a `BIO_f_base64` of OpenSSL reads from a text that is not empty, `none` where it
-- reads less than nothing.
unfoldable pub b64_decode : (Str → Option (List ℕ)) → Str → Outcome (List ℕ)
b64_decode bio s = if is_empty s then ok [] else or_throw Fault.runtime_error (bio s)
