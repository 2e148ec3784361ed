-- ===== src/Netmap.antt =====
-- src/netmap.cpp, and user_profile and login_profile of src/state.cpp: the answers to clients.
pub mod Visible
pub mod Parts
pub mod Frame
pub mod Derp
use wirebone_cpp.Prelude.{
  ℕ, ◌+◌, ◌/◌, ◌%◌, ◌^◌, Bool, true, false, not, ◌&&◌, ◌||◌, Option, none, some, List, [], ◌∷◌,
  ◌++◌, map, Str, codes, is_empty, str_eq, ◌==◌, pos, if◌then◌else◌, length, Outcome, ok, throws,
  Fault, or_throw,
}
use wirebone_cpp.Prelude.Chain.{◌>>=◌}
use wirebone_cpp.Json.{JsonLib}
use wirebone_cpp.Store.Types.{NodeState}
use wirebone_cpp.Netmap.Derp.{default_derp_map}

unfoldable pub node_visible_to : NodeState → NodeState → Bool
node_visible_to self peer =
    if self.id == peer.id
    then true
    else if self.shared || peer.shared
    then true
    else str_eq self.token peer.token

-- `back() != '.'` of a text that is not empty.
abbrev pub ends_dot : Str → Bool
ends_dot [] = false
ends_dot (c ∷ []) = c == b'.'
ends_dot (c ∷ d ∷ s) = ends_dot (d ∷ s)

abbrev pub host_name : NodeState → Str
host_name n = if is_empty n.hostname then codes "node-" ++ n.stable_id else n.hostname

abbrev pub full_name : NodeState → Str → Str
full_name n domain =
    let name = host_name n in
    if ends_dot name then name else name ++ (codes "." ++ (domain ++ codes "."))

-- What the loop of `build_full_map` collects.
pub record MapParts (J : Type 0) : Type 0 where
  pub peers : List J
  pub extra : List J
  pub src_ips : List J
  pub dst_ports : List J

module _ (lib : JsonLib) where
  open lib use {Json, of_str, of_bool, of_int, array, object, dump}

  abbrev pub strs : List Str → Json
  strs xs = array (map of_str xs)

  unfoldable pub user_profile : Json
  user_profile = object (
      (codes "ID", of_int (pos 1))
      ∷ (codes "DisplayName", of_str (codes "wirebone"))
      ∷ (codes "ProfilePicURL", of_str [])
      ∷ [])

  unfoldable pub login_profile : Json
  login_profile = object (
      (codes "ID", of_int (pos 1))
      ∷ (codes "Provider", of_str (codes "wirebone"))
      ∷ (codes "LoginName", of_str (codes "wirebone@local"))
      ∷ (codes "DisplayName", of_str (codes "wirebone"))
      ∷ (codes "ProfilePicURL", of_str [])
      ∷ [])

  unfoldable pub build_register_response : Json
  build_register_response = object (
      (codes "User", user_profile)
      ∷ (codes "Login", login_profile)
      ∷ (codes "NodeKeyExpired", of_bool false)
      ∷ (codes "MachineAuthorized", of_bool true)
      ∷ (codes "AuthURL", of_str [])
      ∷ (codes "Error", of_str [])
      ∷ [])

  -- `created` is the clock as `rfc3339_now` prints it.
  abbrev pub tailcfg_fields : Str → Str → Bool → NodeState → List (Str × Json)
  tailcfg_fields created domain self n =
      let addresses = strs ((n.ipv4 ++ codes "/32") ∷ (n.ipv6 ++ codes "/128") ∷ []) in
      (codes "ID", of_int (pos n.id))
      ∷ (codes "StableID", of_str n.stable_id)
      ∷ (codes "Name", of_str (full_name n domain))
      ∷ (codes "User", of_int (pos 1))
      ∷ (codes "Key", of_str n.node_key)
      ∷ (codes "Machine", of_str n.machine_key)
      ∷ ((if is_empty n.disco_key then [] else (codes "DiscoKey", of_str n.disco_key) ∷ [])
          ++ ((codes "Addresses", addresses)
              ∷ (codes "AllowedIPs", addresses)
              ∷ ((if is_empty n.endpoints then [] else (codes "Endpoints", strs n.endpoints) ∷ [])
                  ++ ((codes "HomeDERP", of_int (pos 0))
                      ∷ (codes "Created", of_str created)
                      ∷ (codes "MachineAuthorized", of_bool true)
                      ∷ (codes "Online", of_bool (n.online || self))
                      ∷ (codes "Cap", of_int (pos 131))
                      ∷ (codes "Hostinfo", object ((codes "Hostname", of_str n.hostname) ∷ []))
                      ∷ []))))

  unfoldable pub node_to_tailcfg : Str → Str → Bool → NodeState → Json
  node_to_tailcfg created domain self n = object (tailcfg_fields created domain self n)

  -- `{{"IP", cidr}, {"Ports", {{"First", 0}, {"Last", 65535}}}}`
  abbrev pub all_ports : Str → Json
  all_ports cidr = object (
      (codes "IP", of_str cidr)
      ∷ (
        codes "Ports",
        object ((codes "First", of_int (pos 0)) ∷ (codes "Last", of_int (pos 65535)) ∷ []),
      )
      ∷ [])

  abbrev pub add_cidr : Str → Str → MapParts Json → MapParts Json
  add_cidr ip mask p = if is_empty ip then p else record p {
    src_ips = p.src_ips ++ of_str (ip ++ mask) ∷ [];
    dst_ports = p.dst_ports ++ all_ports (ip ++ mask) ∷ [];
  }

  -- The lambda `add_filter_ips`.
  abbrev pub add_filter_ips : NodeState → MapParts Json → MapParts Json
  add_filter_ips n p = add_cidr n.ipv6 (codes "/128") (add_cidr n.ipv4 (codes "/32") p)

  abbrev pub dns_record : Str → Str → Str → Json
  dns_record name kind value = object (
      (codes "Name", of_str name)
      ∷ (codes "Type", of_str kind)
      ∷ (codes "Value", of_str value)
      ∷ [])

  -- The lambda `add_dns`.
  abbrev pub add_dns : Str → NodeState → MapParts Json → MapParts Json
  add_dns domain n p =
      let name = host_name n ++ (codes "." ++ domain) in
      record p {
        extra =
            p.extra
            ++ (dns_record name (codes "A") n.ipv4 ∷ dns_record name (codes "AAAA") n.ipv6 ∷ []);
      }

  abbrev pub add_peer : Str → Str → NodeState → NodeState → MapParts Json → MapParts Json
  add_peer created domain self n p =
      if n.id == self.id
      then p
      else record p { peers = p.peers ++ node_to_tailcfg created domain false n ∷ [] }

  -- The body of the loop; `created` is the clock when a node is rendered.
  unfoldable pub visit :
      (NodeState → Str) → Str → NodeState → NodeState → MapParts Json → MapParts Json
  visit created domain self n p =
      if not (node_visible_to self n)
      then p
      else add_peer (created n) domain self n (add_dns domain n (add_filter_ips n p))

  unfoldable pub collect :
      (NodeState → Str) → Str → NodeState → List NodeState → MapParts Json → MapParts Json
  collect created domain self [] p = p
  collect created domain self (n ∷ ns) p =
      collect created domain self ns (visit created domain self n p)

  abbrev pub no_parts : MapParts Json
  no_parts = record { peers = []; extra = []; src_ips = []; dst_ports = [] }

  -- `xs.empty() ? [any] : xs`
  abbrev pub or_any : Json → List Json → Json
  or_any any xs = if is_empty xs then array (any ∷ []) else array xs

  abbrev pub packet_filter : MapParts Json → Json
  packet_filter p = array (
      object (
        (codes "SrcIPs", or_any (of_str (codes "*")) p.src_ips)
        ∷ (codes "DstPorts", or_any (all_ports (codes "*")) p.dst_ports)
        ∷ [])
      ∷ [])

  abbrev pub dns_config : Str → List Json → Json
  dns_config domain extra = object (
      (codes "Resolvers", array [])
      ∷ (codes "FallbackResolvers", array [])
      ∷ (codes "Domains", strs (domain ∷ []))
      ∷ (codes "Proxied", of_bool true)
      ∷ (codes "Routes", object ((domain, array []) ∷ []))
      ∷ (codes "ExtraRecords", array extra)
      ∷ [])

  abbrev pub full_map_fields :
      (NodeState → Str) → Str → NodeState → Str → MapParts Json → List (Str × Json)
  full_map_fields created now self domain p =
      (codes "KeepAlive", of_bool false)
      ∷ (codes "ControlTime", of_str now)
      ∷ (codes "Node", node_to_tailcfg (created self) domain true self)
      ∷ (codes "DERPMap", default_derp_map lib)
      ∷ (codes "Peers", array p.peers)
      ∷ (codes "DNSConfig", dns_config domain p.extra)
      ∷ (codes "Domain", of_str domain)
      ∷ (codes "PacketFilter", packet_filter p)
      ∷ (
        codes "UserProfiles",
        array (
            object (
              (codes "ID", of_int (pos 1))
              ∷ (codes "LoginName", of_str (codes "wirebone@local"))
              ∷ (codes "DisplayName", of_str (codes "wirebone"))
              ∷ [])
            ∷ []),
      )
      ∷ []

  unfoldable pub build_full_map : (NodeState → Str) → Str → NodeState → List NodeState → Str → Json
  build_full_map created now self all domain =
      object (full_map_fields created now self domain (collect created domain self all no_parts))

  unfoldable pub build_keepalive : Str → Json
  build_keepalive now =
      object ((codes "KeepAlive", of_bool true) ∷ (codes "ControlTime", of_str now) ∷ [])

-- `ZSTD_compress` with enough room; `none` is a size that `ZSTD_isError` reports.
abbrev pub Compress : Type 0
Compress = List ℕ → Option (List ℕ)

-- The four bytes of the length, the low one first.
abbrev pub length_bytes : ℕ → List ℕ
length_bytes n =
    let len = n % 2 ^ 32 in
    (len % 256) ∷ (len / 2 ^ 8 % 256) ∷ (len / 2 ^ 16 % 256) ∷ (len / 2 ^ 24 % 256) ∷ []

-- `zstd` is not looked at.
unfoldable pub encode_map_frame : (lib : JsonLib) → Compress → lib.Json → Bool → Outcome (List ℕ)
encode_map_frame lib compress msg zstd = do
  json ← or_throw Fault.type_error (lib.dump msg)
  payload ← or_throw Fault.runtime_error (compress json)
  ok (length_bytes (length payload) ++ payload)
