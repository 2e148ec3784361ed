-- ===== src/Prelude/Chain.antt =====
-- Calls in a row: an exception of one leaves out those behind it.
use wirebone_cpp.Prelude.Faults.{Outcome, ok, throws}

infixl 5 ◌>>=◌
abbrev pub ◌>>=◌ {ℓ κ} : {A : Type ℓ} {B : Type κ} → Outcome A → (A → Outcome B) → Outcome B
ok a >>= f = f a
throws e >>= f = throws e
