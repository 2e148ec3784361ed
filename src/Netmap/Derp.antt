-- ===== src/Netmap/Derp.antt =====
-- src/netmap.cpp: default_derp_map, the relays.
use wirebone_cpp.Prelude.{ℕ, true, [], ◌∷◌, Str, codes, pos}
use wirebone_cpp.Json.{JsonLib}

module _ (lib : JsonLib) where
  open lib use {Json, of_str, of_bool, of_int, array, object}

  region : ℕ → Str → Str → Str → Str → Str → Json
  region id code name node host ipv4 = object (
      (codes "RegionID", of_int (pos id))
      ∷ (codes "RegionCode", of_str code)
      ∷ (codes "RegionName", of_str name)
      ∷ (
        codes "Nodes",
        array (
            object (
              (codes "Name", of_str node)
              ∷ (codes "RegionID", of_int (pos id))
              ∷ (codes "HostName", of_str host)
              ∷ (codes "IPv4", of_str ipv4)
              ∷ (codes "CanPort80", of_bool true)
              ∷ [])
            ∷ []),
      )
      ∷ [])

  unfoldable pub default_derp_map : Json
  unfolding region
  default_derp_map = object (
      (codes "omitDefaultRegions", of_bool true)
      ∷ (
        codes "Regions",
        object (
            (
              codes "1",
              region 1 (codes "nyc") (codes "New York City") (codes "1f")
                  (codes "derp1f.tailscale.com") (codes "199.38.181.104"),
            )
            ∷ (
              codes "2",
              region 2 (codes "sfo") (codes "San Francisco") (codes "2d")
                  (codes "derp2d.tailscale.com") (codes "192.73.252.65"),
            )
            ∷ (
              codes "4",
              region 4 (codes "fra") (codes "Frankfurt") (codes "4f") (codes "derp4f.tailscale.com")
                  (codes "185.40.234.219"),
            )
            ∷ (
              codes "8",
              region 8 (codes "lhr") (codes "London") (codes "8e") (codes "derp8e.tailscale.com")
                  (codes "176.58.92.144"),
            )
            ∷ []),
      )
      ∷ [])
