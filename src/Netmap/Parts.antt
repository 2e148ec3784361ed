-- ===== src/Netmap/Parts.antt =====
-- What build_full_map puts into the map: peers, DNS records and packet filter (src/netmap.cpp).
use wirebone_cpp.Prelude.{
  ◌≡◌, ◌≢◌, ◌↔◌, inl, inr, refl, sym, ap, ◌∙◌, Bool, true, false, not, ◌&&◌, some, List, [], ◌∷◌,
  ◌++◌, map, append-nil, append_assoc, Str, codes, is_empty, select, ◌==◌, arith, Bool-cases,
  if◌then◌else◌,
}
use mathlib.Core.List.{map-append}
use wirebone_cpp.Json.{JsonLib}
use wirebone_cpp.Store.Types.{NodeState}
use wirebone_cpp.Netmap.{
  MapParts, node_visible_to, node_to_tailcfg, visit, collect, no_parts, build_full_map,
  full_map_fields, dns_config, dns_record, host_name, all_ports, packet_filter, add_cidr, add_dns,
  add_filter_ips, add_peer,
}
use wirebone_cpp.Netmap.Visible.{MaySee, node_visible_to_iff}

abbrev pub is_peer : NodeState → NodeState → Bool
is_peer self n = node_visible_to self n && not (n.id == self.id)

-- A peer is another node that may be seen.
pub is_peer_iff :
    (self n : NodeState) → (is_peer self n ≡ true) ↔ (MaySee self n × (n.id ≢ self.id))
is_peer_iff self n = (
  λ h. ((node_visible_to_iff self n).0 (ground arith), λ e. ground arith),
  λ h. ground (arith, (node_visible_to_iff self n).1 h.0),
)

abbrev pub flat {ℓ κ} : {A : Type ℓ} {B : Type κ} → (A → List B) → List A → List B
flat f [] = []
flat f (x ∷ xs) = f x ++ flat f xs

abbrev cidr : Str → Str → List Str
cidr ip mask = if is_empty ip then [] else (ip ++ mask) ∷ []

-- The prefixes of a node's addresses.
abbrev pub cidrs : NodeState → List Str
cidrs n = cidr n.ipv4 (codes "/32") ++ cidr n.ipv6 (codes "/128")

module _ (lib : JsonLib) (created : NodeState → Str) (domain : Str) (self : NodeState) where
  open lib use {Json, of_str, array, find, object, find-object}

  abbrev pub node_records : NodeState → List Json
  node_records n =
      let name = host_name n ++ (codes "." ++ domain) in
      dns_record lib name (codes "A") n.ipv4 ∷ dns_record lib name (codes "AAAA") n.ipv6 ∷ []

  abbrev pub rendered : NodeState → Json
  rendered n = node_to_tailcfg lib (created n) domain false n

  -- What one node adds.
  node_part : NodeState → MapParts Json
  node_part n =
      if node_visible_to self n
      then record {
        peers = if n.id == self.id then [] else rendered n ∷ [];
        extra = node_records n;
        src_ips = map of_str (cidrs n);
        dst_ports = map (all_ports lib) (cidrs n);
      }
      else no_parts lib

  join : MapParts Json → MapParts Json → MapParts Json
  join p q = record {
    peers = p.peers ++ q.peers;
    extra = p.extra ++ q.extra;
    src_ips = p.src_ips ++ q.src_ips;
    dst_ports = p.dst_ports ++ q.dst_ports;
  }

  parts_of : List NodeState → MapParts Json
  parts_of [] = no_parts lib
  parts_of (n ∷ ns) = join (node_part n) (parts_of ns)

  join_assoc : (p q r : MapParts Json) → join (join p q) r ≡ join p (join q r)
  unfolding join
  join_assoc p q r = simp append_assoc

  abbrev cidr_part : List Str → MapParts Json
  cidr_part cs = record {
    peers = [];
    extra = [];
    src_ips = map of_str cs;
    dst_ports = map (all_ports lib) cs;
  }

  add_cidr-join :
      (ip mask : Str) (p : MapParts Json)
      → add_cidr lib ip mask p ≡ join p (cidr_part (cidr ip mask))
  unfolding join
  add_cidr-join [] mask p = simp append-nil
  add_cidr-join (c ∷ ip) mask p = simp append-nil

  cidr_part-append : (xs ys : List Str) → join (cidr_part xs) (cidr_part ys) ≡ cidr_part (xs ++ ys)
  unfolding join
  cidr_part-append xs ys = simp map-append

  add_filter_ips-join :
      (n : NodeState) (p : MapParts Json) → add_filter_ips lib n p ≡ join p (cidr_part (cidrs n))
  add_filter_ips-join n p =
      let c4 = cidr n.ipv4 (codes "/32") in
      let c6 = cidr n.ipv6 (codes "/128") in
      add_cidr-join n.ipv6 (codes "/128") (add_cidr lib n.ipv4 (codes "/32") p)
      ∙ ap (λ q. join q (cidr_part c6)) (add_cidr-join n.ipv4 (codes "/32") p)
      ∙ join_assoc p (cidr_part c4) (cidr_part c6)
      ∙ ap (join p) (cidr_part-append c4 c6)

  dns_peer-join :
      (n : NodeState) (p : MapParts Json)
      → node_visible_to self n ≡ true
      → add_peer lib (created n) domain self n (add_dns lib domain n (join p (cidr_part (cidrs n))))
        ≡ join p (node_part n)
  unfolding join node_part
  dns_peer-join n p h = elim (Bool-cases (n.id == self.id)) [
    | inl own ↦ rw (h, own) (simp append-nil)
    | inr other ↦ rw (h, other) (simp append-nil)
  ]

  hidden_join :
      (n : NodeState) (p : MapParts Json)
      → node_visible_to self n ≡ false
      → p ≡ join p (node_part n)
  unfolding join node_part
  hidden_join n p h = rw h (simp append-nil)

  visit-join :
      (n : NodeState) (p : MapParts Json) → visit lib created domain self n p ≡ join p (node_part n)
  unfolding visit
  visit-join n p = elim (Bool-cases (node_visible_to self n)) [
    | inr hidden ↦ rw (hidden, visit) (hidden_join n p hidden)
    | inl visible ↦
        rw (visible, visit)
          (ap (λ q. add_peer lib (created n) domain self n (add_dns lib domain n q))
              (add_filter_ips-join n p)
            ∙ dns_peer-join n p visible)
  ]

  collect-join :
      (ns : List NodeState) (p : MapParts Json)
      → collect lib created domain self ns p ≡ join p (parts_of ns)
  unfolding collect parts_of
  collect-join [] p = unfold join in simp append-nil
  collect-join (n ∷ ns) p =
      collect-join ns (visit lib created domain self n p)
      ∙ ap (λ q. join q (parts_of ns)) (visit-join n p)
      ∙ join_assoc p (node_part n) (parts_of ns)

  abbrev pub seen : List NodeState → List NodeState
  seen = select (node_visible_to self)

  -- The arrays described without the loop.
  parts_of-peers :
      (ns : List NodeState) → (parts_of ns).peers ≡ map rendered (select (is_peer self) ns)
  unfolding parts_of join node_part
  parts_of-peers [] = refl
  parts_of-peers (n ∷ ns) = elim (Bool-cases (node_visible_to self n)) [
    | inr hidden ↦ rw hidden (parts_of-peers ns)
    | inl visible ↦ elim (Bool-cases (n.id == self.id)) [
      | inl own ↦ rw (visible, own) (parts_of-peers ns)
      | inr other ↦ rw (visible, other) (ap (λ t. rendered n ∷ t) (parts_of-peers ns))
    ]
  ]

  parts_of-extra : (ns : List NodeState) → (parts_of ns).extra ≡ flat node_records (seen ns)
  unfolding parts_of join node_part
  parts_of-extra [] = refl
  parts_of-extra (n ∷ ns) = elim (Bool-cases (node_visible_to self n)) [
    | inr hidden ↦ rw hidden (parts_of-extra ns)
    | inl visible ↦ rw visible (ap (λ t. node_records n ++ t) (parts_of-extra ns))
  ]

  parts_of-src_ips :
      (ns : List NodeState) → (parts_of ns).src_ips ≡ map of_str (flat cidrs (seen ns))
  unfolding parts_of join node_part
  parts_of-src_ips [] = refl
  parts_of-src_ips (n ∷ ns) = elim (Bool-cases (node_visible_to self n)) [
    | inr hidden ↦ rw hidden (parts_of-src_ips ns)
    | inl visible ↦ rw visible (
        ap (λ t. map of_str (cidrs n) ++ t) (parts_of-src_ips ns)
        ∙ sym (map-append of_str (cidrs n) (flat cidrs (seen ns))))
  ]

  parts_of-dst_ports :
      (ns : List NodeState) → (parts_of ns).dst_ports ≡ map (all_ports lib) (flat cidrs (seen ns))
  unfolding parts_of join node_part
  parts_of-dst_ports [] = refl
  parts_of-dst_ports (n ∷ ns) = elim (Bool-cases (node_visible_to self n)) [
    | inr hidden ↦ rw hidden (parts_of-dst_ports ns)
    | inl visible ↦ rw visible (
        ap (λ t. map (all_ports lib) (cidrs n) ++ t) (parts_of-dst_ports ns)
        ∙ sym (map-append (all_ports lib) (cidrs n) (flat cidrs (seen ns))))
  ]

  join_left : (p : MapParts Json) → join (no_parts lib) p ≡ p
  unfolding join
  join_left p = refl

  abbrev pub described : List NodeState → MapParts Json
  described all = record {
    peers = map rendered (select (is_peer self) all);
    extra = flat node_records (seen all);
    src_ips = map of_str (flat cidrs (seen all));
    dst_ports = map (all_ports lib) (flat cidrs (seen all));
  }

  -- The loop collects what the description says.
  pub collect-described :
      (all : List NodeState) → collect lib created domain self all (no_parts lib) ≡ described all
  collect-described all = collect-join all (no_parts lib) ∙ join_left (parts_of all) ∙ λ i. record {
    peers = parts_of-peers all i;
    extra = parts_of-extra all i;
    src_ips = parts_of-src_ips all i;
    dst_ports = parts_of-dst_ports all i;
  }

  -- One rule: from these addresses to these, on all ports.
  abbrev pub admits : List Str → Json
  admits addresses = array (
      object (
        (codes "SrcIPs", array (map of_str addresses))
        ∷ (codes "DstPorts", array (map (all_ports lib) addresses))
        ∷ [])
      ∷ [])

  -- The filter for the addresses that there are.
  abbrev pub filter_for : List Str → Json
  filter_for [] = admits (codes "*" ∷ [])
  filter_for (c ∷ cs) = admits (c ∷ cs)

  packet_filter-described :
      (all : List NodeState) (cs : List Str)
      → packet_filter lib
          (record (described all) { src_ips = map of_str cs; dst_ports = map (all_ports lib) cs })
        ≡ filter_for cs
  packet_filter-described all [] = refl
  packet_filter-described all (c ∷ cs) = refl

  module _ (now : Str) (all : List NodeState) where
    pub build_full_map_lem :
        let answer = build_full_map lib created now self all domain in
        (find answer (codes "Peers") ≡ some (array (map rendered (select (is_peer self) all))))
        × (find answer (codes "DNSConfig")
            ≡ some (dns_config lib domain (flat node_records (seen all))))
        × (find answer (codes "PacketFilter") ≡ some (filter_for (flat cidrs (seen all))))
    unfolding build_full_map
    build_full_map_lem =
        rw (build_full_map, collect-described all)
          (
            find-object (full_map_fields lib created now self domain (described all))
                (codes "Peers"),
            find-object (full_map_fields lib created now self domain (described all))
                (codes "DNSConfig"),
            find-object (full_map_fields lib created now self domain (described all))
                  (codes "PacketFilter")
                ∙ ap some (packet_filter-described all (flat cidrs (seen all))),
          )
