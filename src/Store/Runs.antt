-- ===== src/Store/Runs.antt =====
-- Any sequence of what the threads of the program do with the one Store (src/state.cpp).
pub mod Growth
pub mod Imports
pub mod Keep
pub mod Spent
pub mod Once
pub mod Race
pub mod View
pub mod Moving
pub mod Identity
use wirebone_cpp.Prelude.{ℕ, zero, suc, ◌≡◌, Bool, Option, some, List, Str, ℤ}
use wirebone_cpp.Json.{JsonLib}
use wirebone_cpp.IpAlloc.{Inet}
use wirebone_cpp.Store.Types.{Store}
use wirebone_cpp.Store.Persist.{persist, install_keys, set_persist_hook, load_json}
use wirebone_cpp.Store.Keys.{create_preauth_key, finish_claim, claim_key}
use wirebone_cpp.Store.Nodes.{register_node, update_map_info, set_online}

-- `seen` says what a call that reloads may have read from the file: it reads without the lock, and
-- then takes it. `drawn` says which random bytes a new key may have, and `imported` which texts
-- load_json may be called with.
module _ (lib : JsonLib) (inet : Inet) (seen : Store → lib.Json → Type 0) (drawn : List ℕ → Type 0)
    (imported : Store → Str → Type 0) where
  -- What runs under the lock at once, whether it returns or throws.
  pub data Step (s t : Store) : Type 0 where
    registers :
        (machine node_key host : Str) (ephemeral : Bool) (token : Str) (shared : Bool)
        → t ≡ (register_node lib inet machine node_key host ephemeral token shared s).1
        → Step s t
    updates :
        (machine node_key disco_key host : Str) (endpoints : List Str)
        → t ≡ (update_map_info lib inet machine node_key disco_key host endpoints s).1
        → Step s t
    turns : (machine : Str) (online : Bool) → t ≡ set_online machine online s → Step s t
    creates :
        (raw : Option (List ℕ)) (now : ℤ) (reusable ephemeral : Bool) (expiration : ℤ) (token : Str)
        (shared : Option Bool)
        → ((bytes : List ℕ) → raw ≡ some bytes → drawn bytes)
        → t ≡ (create_preauth_key lib raw now reusable ephemeral expiration token shared s).1
        → Step s t
    reloads : (ks : lib.Json) → seen s ks → t ≡ (install_keys lib (some ks) s).1 → Step s t
    claims :
        (now : ℤ) (key : Str) → t ≡ (finish_claim lib (claim_key now key s.keys) s).1 → Step s t
    persists : t ≡ (persist lib s).1 → Step s t
    hooks : (given : Bool) → t ≡ (set_persist_hook given s).1 → Step s t
    imports : (text : Str) → imported s text → t ≡ (load_json lib text s).1 → Step s t
    disk :
        (can_open can_rename : Bool)
        → t ≡ record s { can_open = can_open; can_rename = can_rename }
        → Step s t

  pub data Reach (s : Store) : ℕ → Store → Type 0 where
    here : Reach s 0 s
    after : {n : ℕ} {t u : Store} → Reach s n t → Step t u → Reach s (suc n) u
