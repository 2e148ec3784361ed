-- ===== src/Store/Runs/Identity.antt =====
-- What a registered machine keeps, along any sequence of calls (src/state.cpp).
use wirebone_cpp.Prelude.{
  ℕ, suc, ◌≡◌, refl, ap, ◌∙◌, inl, inr, none, some, List, Str, str_eq, str_eq_iff, Bool-cases,
}
use wirebone_cpp.Json.{JsonLib}
use wirebone_cpp.IpAlloc.{Inet}
use wirebone_cpp.Store.Types.{Store, NodeState}
use wirebone_cpp.Store.Keys.Registry.{}
use wirebone_cpp.Store.Nodes.{find_by_machine}
use wirebone_cpp.Store.Runs.{Reach}
use wirebone_cpp.Store.Runs.Imports.{Exported}
use wirebone_cpp.Store.Runs.View.{View, view, identity, Moves, stays, alters, joins}
use wirebone_cpp.Store.Runs.Moving.{Step-Moves}

Moves-identity :
    (v w : View) (key : Str) (n : NodeState)
    → Moves v w
    → v key ≡ some n
    → (m : NodeState) × (w key ≡ some m) × (identity m ≡ identity n)
Moves-identity v w key n (stays e) h = (n, ap (λ (x : View). x key) e ∙ h, refl)
Moves-identity v w key n (alters other f same e) h = elim (Bool-cases (str_eq other key)) [
  | inl hit ↦ (f n, ap (λ (x : View). x key) e ∙ rw (hit, h) refl, same n)
  | inr miss ↦ (n, ap (λ (x : View). x key) e ∙ rw (miss, h) refl, refl)
]
Moves-identity v w key n (joins other m named free e) h = elim (Bool-cases (str_eq other key)) [
  | inl hit ↦
      let this : other ≡ key = (str_eq_iff other key).0 hit in
      let absent : v key ≡ none = rw (← this) free in cc
  | inr miss ↦ (n, ap (λ (x : View). x key) e ∙ rw (miss, h) refl, refl)
]

-- No import.
abbrev pub NoImport : Store → Store → Type 0
NoImport s u = ⊥

module _ (lib : JsonLib) (inet : Inet) (seen : Store → lib.Json → Type 0)
    (drawn : List ℕ → Type 0) where
  -- Along any sequence of calls of the store but imports, a machine that is registered stays registered, and its node keeps its
  -- numbers, its addresses and its group.
  pub Reach-identity :
      (s : Store) (n : ℕ) (t : Store) (key : Str) (x : NodeState)
      → Reach lib inet seen drawn (Exported lib NoImport) s n t
      → find_by_machine key s.nodes ≡ some x
      → (y : NodeState) × (find_by_machine key t.nodes ≡ some y) × (identity y ≡ identity x)
  Reach-identity s n t key x Reach.here h = (x, h, refl)
  Reach-identity s (suc n) t key x (Reach.after {t = u} r step) h =
      let (y, found, same) = Reach-identity s n u key x r h in
      elim (Step-Moves lib inet seen drawn NoImport u t step) [
        | inl moves ↦
            let (z, here, kept) = Moves-identity (view u) (view t) key y moves found in
            (z, here, kept ∙ same)
        | inr given ↦ absurd given.export.holds
      ]
