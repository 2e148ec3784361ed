-- ===== src/Store/Persist.antt =====
-- Loading and saving (src/state.cpp): the constructor, load_or_init, apply_snapshot_locked,
-- save_locked, dump_json, load_json, persist, set_persist_hook and reload_keys_from_disk.
pub mod Restore
pub mod Save
pub mod Reload
use wirebone_cpp.Prelude.{
  ℕ, Bool, true, false, Option, none, some, List, [], ◌∷◌, ◌++◌, Str, codes, is_empty, length, ◌==◌,
  str_eq, replicate, ℤ, pos, to_u64, to_u32, Outcome, ok, throws, Fault, or_throw, if◌then◌else◌,
}
use wirebone_cpp.Crypto.Hex.{hex_decode}
use wirebone_cpp.Crypto.Clamp.{generate_x25519_private}
use wirebone_cpp.Json.{JsonLib}
use wirebone_cpp.IpAlloc.{Inet, IpAllocator, make}
use wirebone_cpp.Store.Types.{
  PreauthKey, NodeState, Store, M, ◌>>=◌, ◌>>◌, next, lift, modify, gets,
}
use wirebone_cpp.Store.Codec.{snapshot, key_from_json, node_from_json, field_int}

-- The elements that a loop of `push_back`s has read when it ends or one of them throws.
abbrev pub prepend : {A : Type 0} → A → Outcome (Unit {0}) × List A → Outcome (Unit {0}) × List A
prepend a (r, xs) = (r, a ∷ xs)

unfoldable pub push_all : {A J : Type 0} → (J → Outcome A) → List J → Outcome (Unit {0}) × List A
push_all read [] = (ok tt, [])
push_all read (j ∷ js) = elim (read j) [
  | throws e ↦ (throws e, [])
  | ok a ↦ prepend a (push_all read js)
]

abbrev pub zero32 : List ℕ
zero32 = replicate 32 0

module _ (lib : JsonLib) where
  open lib use {Json, find, items, get_str, dump, dump_indent, parse, read}

  -- `hex_decode(j["noise_private"].get<std::string>(), priv)`
  unfoldable pub restore_private : Option Json → M (Unit {0})
  restore_private none = lift (ok tt)
  restore_private (some j) = do
    text ← lift (or_throw Fault.type_error (get_str j))
    let found = hex_decode text zero32
    if found.0 then modify (λ s. record s { noise_private = found.1 }) else lift (ok tt)

  -- `keys_.clear()` and the loop over `j["preauth_keys"]`.
  unfoldable pub restore_keys : Option Json → M (Unit {0})
  restore_keys none s = (ok tt, record s { keys = [] })
  restore_keys (some j) s =
      let (r, ks) = push_all (key_from_json lib) (items j) in (r, record s { keys = ks })

  unfoldable pub restore_nodes : Option Json → M (Unit {0})
  restore_nodes none s = (ok tt, record s { nodes = [] })
  restore_nodes (some j) s =
      let (r, ns) = push_all (node_from_json lib) (items j) in (r, record s { nodes = ns })

  -- `apply_snapshot_locked`
  unfoldable pub apply_snapshot : Json → M (Unit {0})
  apply_snapshot j = do
    restore_private (find j (codes "noise_private"))
    id ← lift (field_int lib j (codes "next_node_id") (pos 1))
    modify (λ s. record s { next_node_id = to_u64 id })
    index ← lift (field_int lib j (codes "next_ip_index") (pos 1))
    modify (λ s. record s { next_ip_index = to_u32 index })
    restore_keys (find j (codes "preauth_keys"))
    restore_nodes (find j (codes "nodes"))

  -- The file is written beside its place and then renamed. A stream that fails to write is not
  -- noticed by the program, and is left out here.
  unfoldable pub write_file : M (Unit {0})
  write_file s =
      if is_empty s.path
      then (ok tt, s)
      else if s.can_open
      then (elim (dump_indent 2 (snapshot lib s)) [
        | none ↦ (throws Fault.type_error, s)
        | some t ↦
            if s.can_rename
            then (ok tt, record s { file = some (t ++ b'\n' ∷ []) })
            else (throws Fault.runtime_error, s)
      ])
      else (throws Fault.runtime_error, s)

  unfoldable pub call_hook : M (Unit {0})
  call_hook s =
      if s.hooked
      then (elim (dump (snapshot lib s)) [
        | none ↦ (throws Fault.type_error, s)
        | some t ↦ (ok tt, record s { hook_calls = t ∷ s.hook_calls })
      ])
      else (ok tt, s)

  -- `save_locked`
  unfoldable pub save : M (Unit {0})
  save = do write_file; call_hook

  unfoldable pub dump_json : Store → Outcome Str
  dump_json s = or_throw Fault.type_error (dump (snapshot lib s))

  unfoldable pub load_json : Str → M (Unit {0})
  load_json text = do
    j ← lift (or_throw Fault.parse_error (parse (if is_empty text then codes "{}" else text)))
    apply_snapshot j

  unfoldable pub persist : M (Unit {0})
  persist = save

  -- What `reload_keys_from_disk` reads before it takes the lock: `j["preauth_keys"]`, or `none`
  -- where it returns.
  unfoldable pub keys_on_disk : Str → Option Str → Option Json
  keys_on_disk path file = if is_empty path then none else elim file [
    | none ↦ none
    | some t ↦ elim (read t) [ none ↦ none | some j ↦ find j (codes "preauth_keys") ]
  ]

  -- What it does under the lock.
  unfoldable pub install_keys : Option Json → M (Unit {0})
  install_keys none s = (ok tt, s)
  install_keys (some ks) s = restore_keys (some ks) s

  unfoldable pub reload_keys_from_disk : M (Unit {0})
  reload_keys_from_disk s = install_keys (keys_on_disk s.path s.file) s

  -- An empty file, as `mktemp` makes one, is left aside.
  unfoldable pub load_file : M (Unit {0})
  load_file s = if is_empty s.path then (ok tt, s) else elim s.file [
    | none ↦ (ok tt, s)
    | some t ↦
        if is_empty t
        then (ok tt, s)
        else next (or_throw Fault.parse_error (read t), s) apply_snapshot
  ]

  -- `raw` are the random bytes for a new Noise key, if it takes one.
  unfoldable pub load_or_init : List ℕ → M (Unit {0})
  load_or_init raw = do
    load_file
    priv ← gets (λ s. s.noise_private)
    if str_eq priv zero32
        then (λ s. save (record s { noise_private = generate_x25519_private raw }))
        else lift (ok tt)

unfoldable pub fresh : Str → IpAllocator → Option Str → Bool → Bool → Store
fresh path alloc file can_open can_rename = record {
  path = path;
  alloc = alloc;
  noise_private = zero32;
  next_node_id = 1;
  next_ip_index = 1;
  keys = [];
  nodes = [];
  hooked = false;
  file = file;
  can_open = can_open;
  can_rename = can_rename;
  hook_calls = [];
}

abbrev returned : Outcome (Unit {0}) × Store → Outcome Store
returned (ok _, s) = ok s
returned (throws e, s) = throws e

-- The constructor; the last arguments are what it finds at `path`, and random bytes.
unfoldable pub construct :
    JsonLib → Inet → Str → Str → Str → Option Str → Bool → Bool → List ℕ → Outcome Store
construct lib inet path ipv4_cidr ipv6_cidr file can_open can_rename raw =
    elim (make inet ipv4_cidr ipv6_cidr) [
      | throws e ↦ throws e
      | ok alloc ↦ returned (load_or_init lib raw (fresh path alloc file can_open can_rename))
    ]

-- `set_persist_hook`: an empty function is no hook.
unfoldable pub set_persist_hook : Bool → M (Unit {0})
set_persist_hook given = modify λ s. record s { hooked = given }
