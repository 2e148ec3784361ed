-- ===== src/Coordinator/Control.antt =====
-- The interface of a Coordinator to its program: include/wirebone/coordinator.hpp, and the
-- constructor and the wrappers of Impl in src/coordinator.cpp.
pub mod Transfer
pub mod Bootstrap
use wirebone_cpp.Prelude.{
  ℕ, ℤ, pos, Bool, true, false, Option, none, List, [], ◌∷◌, Str, codes, map, is_empty, Outcome, ok,
  throws, if◌then◌else◌,
}
use wirebone_cpp.Prelude.Chain.{◌>>=◌}
use wirebone_cpp.Json.{JsonLib}
use wirebone_cpp.IpAlloc.{Inet}
use wirebone_cpp.Store.Types.{PreauthKey, Store, M}
use wirebone_cpp.Store.Persist.{construct, dump_json, load_json, persist, set_persist_hook}
use wirebone_cpp.Store.Keys.{create_preauth_key, preauth_keys}

-- `keepalive` in seconds.
pub record Config : Type 0 where
  pub listen : Str
  pub server_url : Str
  pub ip_prefix : Str
  pub ipv6_prefix : Str
  pub state_path : Str
  pub domain : Str
  pub dns_listen : Str
  pub keepalive : ℕ

-- `Config{}`
abbrev pub default_config : Config
default_config = record {
  listen = codes "0.0.0.0:8080";
  server_url = codes "http://127.0.0.1:8080";
  ip_prefix = codes "100.64.0.0/16";
  ipv6_prefix = codes "fd7a:115c:a1e0::/48";
  state_path = [];
  domain = codes "wirebone.local";
  dns_listen = codes "0.0.0.0:5353";
  keepalive = 50;
}

-- `expiration` in seconds.
pub record PreauthOptions : Type 0 where
  pub reusable : Bool
  pub ephemeral : Bool
  pub expiration : ℤ
  pub token : Str
  pub shared : Option Bool

abbrev pub default_options : PreauthOptions
default_options = record {
  reusable = true;
  ephemeral = false;
  expiration = pos 0;
  token = [];
  shared = none;
}

pub record NodeInfo : Type 0 where
  pub id : ℕ
  pub stable_id : Str
  pub hostname : Str
  pub machine_key : Str
  pub node_key : Str
  pub disco_key : Str
  pub ipv4 : Str
  pub ipv6 : Str
  pub endpoints : List Str
  pub online : Bool
  pub token : Str
  pub shared : Bool

pub record PreauthInfo : Type 0 where
  pub key : Str
  pub reusable : Bool
  pub ephemeral : Bool
  pub used : Bool
  pub token : Str
  pub shared : Bool

-- `hook_given` tells whether the function that the store's hook calls is there.
pub record Impl : Type 0 where
  pub cfg : Config
  pub store : Store
  pub bootstrap_key : Str
  pub map_gen : ℕ
  pub hook_given : Bool

-- What the constructor finds: the file at `state_path`, whether it can be written, random bytes for
-- the Noise key and for a preauth key, and the clock.
pub record Found : Type 0 where
  pub file : Option Str
  pub can_open : Bool
  pub can_rename : Bool
  pub raw_private : List ℕ
  pub raw_key : Option (List ℕ)
  pub now : ℤ

-- A call of the store by a member function of Impl, which stays as it is where it throws.
abbrev pub call {ℓ} : {A : Type 0} → {R : Type ℓ} → M A → Impl → (Outcome A → Impl → R) → R
call f c rest = let (r, s) = f c.store in rest r (record c { store = s })

abbrev pub pair : {A : Type 0} → Outcome A → Impl → Outcome A × Impl
pair r c = (r, c)

unfoldable pub list_preauth_keys : Impl → List PreauthInfo
list_preauth_keys c =
    map
      (λ k. record {
        key = k.key;
        reusable = k.reusable;
        ephemeral = k.ephemeral;
        used = k.used;
        token = k.token;
        shared = k.shared;
      })
      (preauth_keys c.store)

unfoldable pub list_nodes : Impl → List NodeInfo
list_nodes c =
    map
      (λ n. record {
        id = n.id;
        stable_id = n.stable_id;
        hostname = n.hostname;
        machine_key = n.machine_key;
        node_key = n.node_key;
        disco_key = n.disco_key;
        ipv4 = n.ipv4;
        ipv6 = n.ipv6;
        endpoints = n.endpoints;
        online = n.online;
        token = n.token;
        shared = n.shared;
      })
      c.store.nodes

-- The store is always given a hook, which calls the one that is given here, if there is one.
unfoldable pub set_hook : Bool → Impl → Outcome (Unit {0}) × Impl
set_hook given c = call (set_persist_hook true) (record c { hook_given = given }) pair

-- The key that `import_state` remembers.
abbrev pub first_key : List PreauthKey → Str
first_key [] = []
first_key (k ∷ ks) = k.key

module _ (lib : JsonLib) where
  unfoldable pub create_key : Option (List ℕ) → ℤ → PreauthOptions → Impl → Outcome Str × Impl
  create_key raw now opts c =
      call
        (create_preauth_key lib raw now opts.reusable opts.ephemeral opts.expiration opts.token
          opts.shared)
        c pair

  unfoldable pub export_state : Impl → Outcome Str
  export_state c = dump_json lib c.store

  -- Once the text is loaded; an exception leaves the key as it was.
  abbrev pub remember : Outcome (Unit {0}) → Impl → Outcome (Unit {0}) × Impl
  remember (throws e) c = (throws e, c)
  remember (ok u) c = (ok u, record c { bootstrap_key = first_key (preauth_keys c.store) })

  unfoldable pub import_state : Str → Impl → Outcome (Unit {0}) × Impl
  import_state json c = call (load_json lib json) c remember

  unfoldable pub persist_state : Impl → Outcome (Unit {0}) × Impl
  persist_state c = call (persist lib) c pair

  -- The first preauth key of a store without any.
  abbrev pub with_key : Outcome Str → Impl → Outcome Impl
  with_key (throws e) c = throws e
  with_key (ok key) c = ok (record c { bootstrap_key = key })

  unfoldable pub bootstrap : Option (List ℕ) → ℤ → Impl → Outcome Impl
  bootstrap raw now c =
      if is_empty (preauth_keys c.store)
      then call (create_preauth_key lib raw now true false (pos 0) [] none) c with_key
      else ok c

  -- The constructor.
  unfoldable pub new_impl : Inet → Config → Found → Outcome Impl
  new_impl inet cfg found = do
    store ←
        construct lib inet cfg.state_path cfg.ip_prefix cfg.ipv6_prefix found.file found.can_open
          found.can_rename found.raw_private
    bootstrap found.raw_key found.now
        (record { cfg = cfg; store = store; bootstrap_key = []; map_gen = 1; hook_given = false })
