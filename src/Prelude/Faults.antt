-- ===== src/Prelude/Faults.antt =====
-- What a C++ call ends in: a value, or a thrown exception.
use mathlib.Core.Path.{◌≡◌}
use mathlib.Core.Option.{Option, none, some}

pub data Fault : Type 0 where
  -- `std::invalid_argument` and `std::out_of_range`, as `std::stoi` throws them
  invalid_argument out_of_range : Fault
  -- `std::runtime_error` of the program
  runtime_error : Fault
  -- `nlohmann::json::type_error` and `parse_error`
  type_error parse_error : Fault

pub data Outcome {ℓ} (A : Type ℓ) : Type ℓ where
  ok : A → Outcome A
  throws : Fault → Outcome A

abbrev pub or_throw {ℓ} : {A : Type ℓ} → Fault → Option A → Outcome A
or_throw e none = throws e
or_throw e (some a) = ok a

pub ok-injective {ℓ} : {A : Type ℓ} {a b : A} → ok a ≡ ok b → a ≡ b
ok-injective e = cc
