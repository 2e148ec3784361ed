-- ===== src/CApi.antt =====
-- src/c_api.cpp: the interface for C. A null pointer is `none`; the freeing of memory is not modelled.
pub mod Running
use wirebone_cpp.Prelude.{
  ℕ, ◌+◌, ℤ, pos, negsuc, ltb_ℤ, is_zero_ℤ, Bool, not, Option, none, some, List, [], Str, codes,
  length, is_empty, map, Outcome, ok, throws, if◌then◌else◌,
}
use wirebone_cpp.Json.{JsonLib}
use wirebone_cpp.IpAlloc.{Inet}
use wirebone_cpp.Coordinator.Control.{
  Config, default_config, PreauthOptions, default_options, NodeInfo, Impl, Found, new_impl,
  create_key, list_nodes, export_state, import_state, persist_state, set_hook,
}

pub record WireboneConfig : Type 0 where
  pub listen : Option Str
  pub server_url : Option Str
  pub ip_prefix : Option Str
  pub ipv6_prefix : Option Str
  pub state_path : Option Str
  pub domain : Option Str
  pub dns_listen : Option Str

pub record WireboneNodeInfo : Type 0 where
  pub id : ℕ
  pub hostname : Option Str
  pub ipv4 : Option Str
  pub ipv6 : Option Str
  pub node_key : Option Str
  pub online : ℤ
  pub token : Option Str
  pub shared : ℤ

-- `v && v[0] ? v : d`
unfoldable pub or_def : Option Str → Str → Str
or_def none d = d
or_def (some v) d = if is_empty v then d else v

abbrev pub given_or : Option Str → Str → Str
given_or none d = d
given_or (some v) d = v

unfoldable pub config_of : Option WireboneConfig → Config
config_of none = default_config
config_of (some cfg) = record default_config {
  listen = or_def cfg.listen (codes "0.0.0.0:8080");
  server_url = or_def cfg.server_url (codes "http://127.0.0.1:8080");
  ip_prefix = or_def cfg.ip_prefix (codes "100.64.0.0/16");
  ipv6_prefix = or_def cfg.ipv6_prefix (codes "fd7a:115c:a1e0::/48");
  state_path = given_or cfg.state_path [];
  domain = or_def cfg.domain (codes "wirebone.local");
  dns_listen = given_or cfg.dns_listen (codes "0.0.0.0:5353");
}

abbrev pub caught : {A : Type 0} → Outcome A → Option A
caught (ok a) = some a
caught (throws e) = none

-- 0, and -1 for an exception.
abbrev pub status : {A : Type 0} → Outcome A → ℤ
status (ok a) = pos 0
status (throws e) = negsuc 0

abbrev pub c_bool : Bool → ℤ
c_bool b = if b then pos 1 else pos 0

-- Whether a callback is given.
unfoldable pub wirebone_set_persist_callback : Bool → Option Impl → Option Impl
wirebone_set_persist_callback given none = none
wirebone_set_persist_callback given (some c) = some (set_hook given c).1

-- `malloc` says whether that many bytes can be had.
module _ (malloc : ℕ → Bool) where
  unfoldable pub dup_str : Str → Option Str
  dup_str s = if malloc (length s + 1) then some s else none

  abbrev pub dup_caught : Outcome Str → Option Str
  dup_caught (ok s) = dup_str s
  dup_caught (throws e) = none

  unfoldable pub wirebone_bootstrap_key : Option Impl → Option Str
  wirebone_bootstrap_key none = none
  wirebone_bootstrap_key (some c) = dup_str c.bootstrap_key

  unfoldable pub node_of : NodeInfo → WireboneNodeInfo
  node_of n = record {
    id = n.id;
    hostname = dup_str n.hostname;
    ipv4 = dup_str n.ipv4;
    ipv6 = dup_str n.ipv6;
    node_key = dup_str n.node_key;
    online = c_bool n.online;
    token = dup_str n.token;
    shared = c_bool n.shared;
  }

  -- The array and `*count`, for a `count` that is not null; `calloc` says whether the array can be
  -- had.
  unfoldable pub wirebone_list_nodes : (ℕ → Bool) → Option Impl → Option (List WireboneNodeInfo) × ℕ
  wirebone_list_nodes calloc none = (none, 0)
  wirebone_list_nodes calloc (some c) =
      let nodes = list_nodes c in
      if is_empty nodes
      then (none, 0)
      else if calloc (length nodes)
      then (some (map node_of nodes), length nodes)
      else (none, 0)

  module _ (lib : JsonLib) where
    unfoldable pub wirebone_export_state : Option Impl → Option Str
    wirebone_export_state none = none
    wirebone_export_state (some c) = dup_caught (export_state lib c)

    -- `shared` below 0 asks for the default.
    unfoldable pub options_of : ℤ → ℤ → Option Str → ℤ → PreauthOptions
    options_of reusable ephemeral token shared = record default_options {
      reusable = not (is_zero_ℤ reusable);
      ephemeral = not (is_zero_ℤ ephemeral);
      token = given_or token [];
      shared = if ltb_ℤ shared (pos 0) then none else some (not (is_zero_ℤ shared));
    }

    -- What is left of a coordinator by a call that may throw.
    abbrev pub returned : {A B : Type 0} → (Outcome A → B) → Outcome A × Impl → B × Option Impl
    returned f (r, c) = (f r, some c)

    unfoldable pub wirebone_create_preauth_key_ex :
        Option (List ℕ) → ℤ → Option Impl → ℤ → ℤ → Option Str → ℤ → Option Str × Option Impl
    wirebone_create_preauth_key_ex raw now none reusable ephemeral token shared = (none, none)
    wirebone_create_preauth_key_ex raw now (some c) reusable ephemeral token shared =
        returned dup_caught (create_key lib raw now (options_of reusable ephemeral token shared) c)

    unfoldable pub wirebone_create_preauth_key :
        Option (List ℕ) → ℤ → Option Impl → ℤ → ℤ → Option Str × Option Impl
    wirebone_create_preauth_key raw now c reusable ephemeral =
        wirebone_create_preauth_key_ex raw now c reusable ephemeral none (negsuc 0)

    unfoldable pub wirebone_import_state : Option Impl → Option Str → ℤ × Option Impl
    wirebone_import_state none json = (negsuc 0, none)
    wirebone_import_state (some c) json =
        returned status (import_state lib (given_or json (codes "{}")) c)

    unfoldable pub wirebone_persist : Option Impl → ℤ × Option Impl
    wirebone_persist none = (negsuc 0, none)
    wirebone_persist (some c) = returned status (persist_state lib c)

    unfoldable pub wirebone_create : Inet → Option WireboneConfig → Found → Option Impl
    wirebone_create inet cfg found = caught (new_impl lib inet (config_of cfg) found)
