-- ===== src/Coordinator/Session.antt =====
-- The state that the handlers of src/coordinator.cpp act on.
use wirebone_cpp.Prelude.{ℕ, ◌+◌, ◌%◌, ◌^◌, Bool, List, Str, Outcome, ok, throws}
use wirebone_cpp.Store.Types.{Store, M}
use wirebone_cpp.Http2.{Server}

-- `LiveMap`; a time is in the unit of `keepalive`.
pub record LiveMap : Type 0 where
  pub stream_id : ℕ
  pub machine : Str
  pub zstd : Bool
  pub last_gen : ℕ
  pub last_send : ℕ

-- The store and the generation of the coordinator, and what `serve_h2` keeps for a connection.
pub record Session : Type 0 where
  pub store : Store
  pub map_gen : ℕ
  pub server : Server
  pub live : List LiveMap

-- A handler: its outcome and what it leaves, also when it throws.
abbrev pub Handler : Type 0 → Type 0
Handler A = Session → Outcome A × Session

abbrev pub continue : {A B : Type 0} → Outcome A × Session → (A → Handler B) → Outcome B × Session
continue (ok a, v) rest = rest a v
continue (throws e, v) rest = (throws e, v)

infixl 5 ◌>>=◌ ◌>>◌
abbrev pub ◌>>=◌ : {A B : Type 0} → Handler A → (A → Handler B) → Handler B
◌>>=◌ h rest v = continue (h v) rest

abbrev pub ◌>>◌ : {B : Type 0} → Handler (Unit {0}) → Handler B → Handler B
◌>>◌ h rest v = continue (h v) (λ _. rest)

-- A call that may throw and changes nothing.
abbrev pub pure : {A : Type 0} → Outcome A → Handler A
pure r v = (r, v)

-- A call of the store.
abbrev pub on_store : {A : Type 0} → M A → Handler A
on_store f v = let (r, s) = f v.store in (r, record v { store = s })

abbrev pub on_server : (Server → Server) → Handler (Unit {0})
on_server f v = (ok tt, record v { server = f v.server })

abbrev pub look : {A : Type 0} → (Session → A) → Handler A
look f v = (ok (f v), v)

unfoldable pub bump_map : Handler (Unit {0})
bump_map v = (ok tt, record v { map_gen = (v.map_gen + 1) % 2 ^ 64 })
