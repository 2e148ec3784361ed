-- ===== src/Store/Types.antt =====
-- The records of src/state.hpp.
use wirebone_cpp.Prelude.{ℕ, Bool, Option, List, Str, ℤ, Outcome, ok, throws}
use wirebone_cpp.IpAlloc.{IpAllocator}

pub record PreauthKey : Type 0 where
  pub key : Str
  pub reusable : Bool
  pub ephemeral : Bool
  pub used : Bool
  pub expires_unix : ℤ
  pub token : Str
  pub shared : Bool

pub record PreauthClaim : Type 0 where
  pub ephemeral : Bool
  pub token : Str
  pub shared : Bool

pub record NodeState : Type 0 where
  pub id : ℕ
  pub stable_id : Str
  pub hostname : Str
  pub machine_key : Str
  pub node_key : Str
  pub disco_key : Str
  pub ipv4 : Str
  pub ipv6 : Str
  pub endpoints : List Str
  pub online : Bool
  pub ephemeral : Bool
  pub token : Str
  pub shared : Bool

-- The members of `Store`, and what it acts on: the text of the file at `path` (`none` where it
-- cannot be opened), whether `path.tmp` can be opened and renamed, and the texts that the persist
-- hook was called with, the last one first.
pub record Store : Type 0 where
  pub path : Str
  pub alloc : IpAllocator
  pub noise_private : List ℕ
  pub next_node_id : ℕ
  pub next_ip_index : ℕ
  pub keys : List PreauthKey
  pub nodes : List NodeState
  pub hooked : Bool
  pub file : Option Str
  pub can_open : Bool
  pub can_rename : Bool
  pub hook_calls : List Str

-- A member function: its outcome and the store that it leaves, also when it throws.
abbrev pub M : Type 0 → Type 0
M A = Store → Outcome A × Store

abbrev pub next : {A B : Type 0} → Outcome A × Store → (A → M B) → Outcome B × Store
next (ok a, s) f = f a s
next (throws e, s) f = (throws e, s)

infixl 5 ◌>>◌
abbrev pub ◌>>◌ : {B : Type 0} → M (Unit {0}) → M B → M B
◌>>◌ first second store = next (first store) (λ _. second)

infixl 5 ◌>>=◌
abbrev pub ◌>>=◌ : {A B : Type 0} → M A → (A → M B) → M B
◌>>=◌ first then_do store = next (first store) then_do

abbrev pub lift : {A : Type 0} → Outcome A → M A
lift r s = (r, s)

abbrev pub modify : (Store → Store) → M (Unit {0})
modify f s = (ok tt, f s)

abbrev pub gets : {A : Type 0} → (Store → A) → M A
gets f s = (ok (f s), s)
