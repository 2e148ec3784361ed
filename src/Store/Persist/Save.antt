-- ===== src/Store/Persist/Save.antt =====
-- Saving: save_locked, and what a later load finds (src/state.cpp).
use wirebone_cpp.Prelude.{
  ◌≡◌, refl, ok, throws, arith, some, false, Outcome, Str, [], ◌∷◌, ◌++◌, sym, ap, ◌∙◌, is_empty,
  Option-cases, Bool-cases, ◌⊎◌, inl, inr,
}
use wirebone_cpp.Json.{JsonLib}
use wirebone_cpp.Store.Types.{Store, next}
use wirebone_cpp.Store.Codec.{snapshot}
use wirebone_cpp.Store.Persist.{write_file, call_hook, save}
use wirebone_cpp.Store.Persist.Restore.{}

-- Only the file and the record of hook calls may change.
abbrev pub SameMembers : Store → Store → Type 0
SameMembers s t = t ≡ record s { file = t.file; hook_calls = t.hook_calls }

append_ne : (t : Str) → is_empty (t ++ b'\n' ∷ []) ≡ false
append_ne [] = refl
append_ne (c ∷ t) = refl

module _ (lib : JsonLib) where
  open lib use {
    Json, find, object, array, dump, dump_indent, read, parse, find-object, parse-dump, dump_ne,
    read-dump_indent,
  }

  write_file_members : (s : Store) → SameMembers s (write_file lib s).1
  unfolding write_file
  write_file_members s = ground arith

  call_hook_members : (s : Store) → SameMembers s (call_hook lib s).1
  unfolding call_hook
  call_hook_members s = ground arith

  call_hook_file : (s : Store) → (call_hook lib s).1.file ≡ s.file
  unfolding call_hook
  call_hook_file s = ground arith

  after_write :
      (s : Store) (p : Outcome (Unit {0}) × Store)
      → SameMembers s p.1
      → SameMembers s (next p (λ _. call_hook lib)).1
  after_write s (throws e, t) h = h
  after_write s (ok u, t) h =
      let v = (call_hook lib t).1 in
      call_hook_members t
      ∙ ap (λ (x : Store). record x { file = v.file; hook_calls = v.hook_calls }) h

  -- `save_locked` leaves the members of the store alone, also when it throws.
  pub save_members : (s : Store) → SameMembers s (save lib s).1
  unfolding save
  save_members s = after_write s (write_file lib s) (write_file_members s)

  pub saved_members : (s t : Store) → save lib s ≡ (ok tt, t) → SameMembers s t
  saved_members s t e = rw e at (save_members s)

  abbrev pub Written : Store → Store → Type 0
  Written s t =
      (text : Str) × (t.file ≡ some text)
      × (read text ≡ some (snapshot lib s))
      × (is_empty text ≡ false)

  write_file_lem :
      (s t : Store) → is_empty s.path ≡ false → write_file lib s ≡ (ok tt, t) → Written s t
  unfolding write_file
  write_file_lem s t named e = elim (Option-cases (dump_indent 2 (snapshot lib s))) [
    | inl bad ↦ absurd (ground arith)
    | inr (text, found) ↦ (
      text ++ b'\n' ∷ [],
      ground arith,
      read-dump_indent 2 (snapshot lib s) text found,
      append_ne text,
    )
  ]

  after_write_file :
      (s t : Store) (p : Outcome (Unit {0}) × Store)
      → write_file lib s ≡ p
      → is_empty s.path ≡ false
      → next p (λ _. call_hook lib) ≡ (ok tt, t)
      → Written s t
  after_write_file s t (throws f, u) w named e = cc
  after_write_file s t (ok x, u) w named e =
      let (text, found, reads, ne) = write_file_lem s u named w in
      (
        text,
        ap (λ (p : Outcome (Unit {0}) × Store). p.1.file) (sym e) ∙ call_hook_file u ∙ found,
        reads,
        ne,
      )

  -- The file is as it was, or holds the text of the store.
  abbrev pub WrittenOrLeft : Store → Store → Type 0
  WrittenOrLeft s t = (t.file ≡ s.file) ⊎ Written s t

  write_file_either : (s : Store) → is_empty s.path ≡ false → WrittenOrLeft s (write_file lib s).1
  unfolding write_file
  write_file_either s named = elim (Bool-cases s.can_open) [
    | inr e ↦ inl (ground arith)
    | inl e ↦ elim (Option-cases (dump_indent 2 (snapshot lib s))) [
      | inl f ↦ inl (ground arith)
      | inr (text, f) ↦ elim (Bool-cases s.can_rename) [
        | inr g ↦ inl (ground arith)
        | inl g ↦ inr (
          text ++ b'\n' ∷ [],
          ground arith,
          read-dump_indent 2 (snapshot lib s) text f,
          append_ne text,
        )
      ]
    ]
  ]

  hooked_either :
      (s : Store) (p : Outcome (Unit {0}) × Store)
      → WrittenOrLeft s p.1
      → WrittenOrLeft s (next p (λ _. call_hook lib)).1
  hooked_either s (throws f, t) h = h
  hooked_either s (ok u, t) h = rw (call_hook_file t) h

  -- So it is after a save, also where it throws.
  pub save_either : (s : Store) → is_empty s.path ≡ false → WrittenOrLeft s (save lib s).1
  unfolding save
  save_either s named = hooked_either s (write_file lib s) (write_file_either s named)

  -- The text in the file of a store that was saved.
  pub save_file : (s t : Store) → is_empty s.path ≡ false → save lib s ≡ (ok tt, t) → Written s t
  unfolding save
  save_file s t named e = after_write_file s t (write_file lib s) refl named e
