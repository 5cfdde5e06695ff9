-- ===== src/Lan/Examples.antt =====
-- The selection of bridge/src/matter/lan_netif.rs on a host with a LAN and a container bridge.
use mathlib.Core.List.{Memᴰ}
use thatsmatter.Base.{◌≡◌, refl, true, false, List, [], ◌∷◌, none, some}
use thatsmatter.Base.Text.{codes}
use thatsmatter.Lan.{UnixNetif, Ipv6Addr, is_fallback, pick}
use thatsmatter.Lan.Choice.{AutoPick, pick-AutoPick}

abbrev pub link_local : Ipv6Addr
link_local = record { s0 = 0xfe80; s1 = 0; s2 = 0; s3 = 0; s4 = 0; s5 = 0; s6 = 0; s7 = 1 }

abbrev pub eth0 : UnixNetif
eth0 = record {
  name = codes "eth0";
  hw_addr = 2 ∷ 0 ∷ 0 ∷ 0 ∷ 0 ∷ 1 ∷ 0 ∷ 0 ∷ [];
  ipv4addrs = [];
  ipv6addrs = link_local ∷ [];
  operational = true;
}

abbrev pub host : List UnixNetif
host =
    record eth0 { name = codes "docker0" }
    ∷ record eth0 { name = codes "lo"; ipv6addrs = [] }
    ∷ eth0
    ∷ []

picks_eth0 : pick none host ≡ some eth0
unfolding pick
picks_eth0 = refl

pick-AutoPick_example :
    ((i : UnixNetif) → pick none host ≡ some i → AutoPick host i)
    × (pick none host ≡ none → (j : UnixNetif) → Memᴰ j host → is_fallback j ≡ false)
pick-AutoPick_example = pick-AutoPick host
