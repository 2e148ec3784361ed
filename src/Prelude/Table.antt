-- ===== src/Prelude/Table.antt =====
-- A fact about every number under a limit, by a table of its instances.
use Prim.Native.Nat.{ℕ, zero, suc, ◌<◌}
use mathlib.Core.Path.{◌≡◌}
use mathlib.Core.Bool.{Bool, true, false}
use native.Mathlib.Omega.{arith}
use wirebone_cpp.Prelude.Tests.{if◌then◌else◌}

unfoldable pub table : (ℕ → Bool) → ℕ → Bool
table fact zero = true
table fact (suc limit) = if fact limit then table fact limit else false

pub table_entry :
    (fact : ℕ → Bool) (limit entry : ℕ)
    → entry < limit
    → table fact limit ≡ true
    → fact entry ≡ true
unfolding table
table_entry fact (suc limit) entry under all = ground (arith, table_entry fact limit entry)
table_entry fact zero entry under all = absurd (omega arith)
