-- ===== src/Lan.antt =====
-- bridge/src/matter/lan_netif.rs: which network interface the Matter stack is shown. The host's
-- interfaces are what the operating system enumerates, an argument.
pub mod Best
pub mod Choice
pub mod Examples
use thatsmatter.Base.{
  ℕ, zero, suc, ◌+◌, ◌/◌, ◌≡◌, refl, Bool, true, false, not, ◌&&◌, ◌||◌, List, [], ◌∷◌, Option,
  none, some, arith, ltb, leb, ◌==◌, if◌then◌else◌, any, all, find, Result, ok, err,
}
use thatsmatter.Base.Text.{Text, codes, text_eq, len, is_empty, trim, starts_with}

-- `std::net`: an address by its octets, and one by its segments of 16 bits.
pub record Ipv4Addr : Type 0 where
  pub a : ℕ
  pub b : ℕ
  pub c : ℕ
  pub d : ℕ

pub record Ipv6Addr : Type 0 where
  pub s0 : ℕ
  pub s1 : ℕ
  pub s2 : ℕ
  pub s3 : ℕ
  pub s4 : ℕ
  pub s5 : ℕ
  pub s6 : ℕ
  pub s7 : ℕ

-- The fields of rs-matter-stack's `UnixNetif` that the selection reads; `hw_addr` has 8 bytes.
pub record UnixNetif : Type 0 where
  pub name : Text
  pub hw_addr : List ℕ
  pub ipv4addrs : List Ipv4Addr
  pub ipv6addrs : List Ipv6Addr
  pub operational : Bool

is_ascii_digit : ℕ → Bool
is_ascii_digit c = leb b'0' c && leb c b'9'

all_digits : Text → Bool
unfolding is_ascii_digit
all_digits [] = true
all_digits (c ∷ s) = is_ascii_digit c && all_digits s

-- `name[2..]`, of a name that begins with two bytes of ASCII.
abbrev skip2 : Text → Text
skip2 (c ∷ d ∷ s) = s
skip2 s = []

unfoldable pub is_loopback_name : Text → Bool
unfolding all_digits
is_loopback_name name =
    text_eq name (codes "lo")
    || (starts_with name (codes "lo") && ltb 2 (len name) && all_digits (skip2 name))

abbrev virtual_exact : List Text
virtual_exact = codes "lo" ∷ codes "cni0" ∷ codes "docker0" ∷ []

abbrev virtual_prefixes : List Text
virtual_prefixes =
    codes "docker"
    ∷ codes "veth"
    ∷ codes "br-"
    ∷ codes "hassio"
    ∷ codes "flannel"
    ∷ codes "cni"
    ∷ codes "cali"
    ∷ codes "weave"
    ∷ codes "virbr"
    ∷ codes "vboxnet"
    ∷ codes "zt"
    ∷ codes "tailscale"
    ∷ codes "wg"
    ∷ codes "tun"
    ∷ codes "tap"
    ∷ codes "dummy"
    ∷ codes "sit"
    ∷ codes "ip6tnl"
    ∷ codes "kube"
    ∷ codes "podman"
    ∷ []

unfoldable pub is_virtual_name : Text → Bool
unfolding is_loopback_name
is_virtual_name name =
    if is_loopback_name name
    then true
    else if any (text_eq name) virtual_exact
    then true
    else any (starts_with name) virtual_prefixes

-- A byte among the first `n` that is not 0.
nonzero_within : ℕ → List ℕ → Bool
nonzero_within zero bytes = false
nonzero_within (suc n) [] = false
nonzero_within (suc n) (b ∷ bytes) = not (b == 0) || nonzero_within n bytes

unfoldable pub has_real_mac : List ℕ → Bool
unfolding nonzero_within
has_real_mac hw_addr = nonzero_within 6 hw_addr

unfoldable pub usable_ipv4 : Ipv4Addr → Bool
usable_ipv4 i =
    not ((i.a == 0) && (i.b == 0) && (i.c == 0) && (i.d == 0))
    && not (i.a == 127)
    && not ((i.a == 169) && (i.b == 254))
    && not (leb 224 i.a && leb i.a 239)
    && not ((i.a == 255) && (i.b == 255) && (i.c == 255) && (i.d == 255))

-- All segments but the last are 0.
abbrev low_only : Ipv6Addr → Bool
low_only i =
    (i.s0 == 0)
    && (i.s1 == 0)
    && (i.s2 == 0)
    && (i.s3 == 0)
    && (i.s4 == 0)
    && (i.s5 == 0)
    && (i.s6 == 0)

unfoldable pub matter_ipv6 : Ipv6Addr → Bool
matter_ipv6 i =
    not (low_only i && (i.s7 == 0)) && not (low_only i && (i.s7 == 1)) && not (i.s0 / 0x100 == 0xff)

-- Not `fe80::/10` either.
unfoldable pub usable_ipv6 : Ipv6Addr → Bool
unfolding matter_ipv6
usable_ipv6 i = matter_ipv6 i && not (i.s0 / 0x40 == 0x3fa)

unfoldable pub has_matter_ipv6 : UnixNetif → Bool
unfolding matter_ipv6
has_matter_ipv6 iface = any matter_ipv6 iface.ipv6addrs

unfoldable pub score_iface : UnixNetif → ℕ
unfolding has_real_mac usable_ipv4 has_matter_ipv6 usable_ipv6
score_iface iface =
    (if iface.operational then 1000 else 0)
    + (if has_real_mac iface.hw_addr then 100 else 0)
    + (if any usable_ipv4 iface.ipv4addrs then 50 else 0)
    + (if has_matter_ipv6 iface then 200 else 0)
    + (if any usable_ipv6 iface.ipv6addrs then 20 else 0)

-- `LanNetifs::new`.
unfoldable pub pin_of : Option Text → Option Text
unfolding trim
pin_of none = none
pin_of (some s) = if is_empty (trim s) then none else some (trim s)

-- The tests by which the two loops of `pick` skip an interface.
unfoldable pub is_candidate : UnixNetif → Bool
unfolding is_loopback_name is_virtual_name has_matter_ipv6
is_candidate i =
    not (is_loopback_name i.name || is_virtual_name i.name)
    && not (not i.operational || not (has_matter_ipv6 i))

unfoldable pub is_fallback : UnixNetif → Bool
unfolding is_loopback_name has_matter_ipv6
is_fallback i = not (is_loopback_name i.name || not i.operational || not (has_matter_ipv6 i))

-- A score that is as high keeps the interface that was first.
unfoldable pub better : UnixNetif → Option (ℕ × UnixNetif) → Option (ℕ × UnixNetif)
unfolding score_iface
better i none = some (score_iface i, i)
better i (some (s, j)) = if leb (score_iface i) s then some (s, j) else some (score_iface i, i)

unfoldable pub best :
    (UnixNetif → Bool) → List UnixNetif → Option (ℕ × UnixNetif) → Option (ℕ × UnixNetif)
unfolding better
best p [] acc = acc
best p (i ∷ ifaces) acc = best p ifaces (if p i then better i acc else acc)

unfoldable pub pinned : Option UnixNetif → Option UnixNetif
unfolding has_matter_ipv6
pinned none = none
pinned (some i) = if has_matter_ipv6 i then some i else none

abbrev pub named : Text → UnixNetif → Bool
named pin i = text_eq i.name pin

unfoldable pub second : Option (ℕ × UnixNetif) → Option UnixNetif
second none = none
second (some (s, i)) = some i

unfoldable pub or_fallback : List UnixNetif → Option (ℕ × UnixNetif) → Option UnixNetif
unfolding best is_fallback second
or_fallback ifaces (some (s, i)) = some i
or_fallback ifaces none = second (best is_fallback ifaces none)

unfoldable pub pick : Option Text → List UnixNetif → Option UnixNetif
unfolding best is_candidate or_fallback pinned
pick (some pin) ifaces = pinned (find (named pin) ifaces)
pick none ifaces = or_fallback ifaces (best is_candidate ifaces none)

pub data StartError : Type 0 where
  pin_not_found pin_without_ipv6 pin_is_down no_ipv6_lan : StartError

unfoldable pub validate_pinned : Option UnixNetif → Result StartError (Unit {0})
unfolding has_matter_ipv6
validate_pinned none = err pin_not_found
validate_pinned (some i) =
    if not (has_matter_ipv6 i)
    then err pin_without_ipv6
    else if not i.operational
    then err pin_is_down
    else ok tt

-- `validate_for_start`, once the interfaces are enumerated.
unfoldable pub validate_for_start : Option Text → List UnixNetif → Result StartError (Unit {0})
unfolding validate_pinned is_loopback_name is_virtual_name has_matter_ipv6
validate_for_start (some pin) ifaces = validate_pinned (find (named pin) ifaces)
validate_for_start none ifaces =
    if any
      (λ i.
        not (is_loopback_name i.name)
        && not (is_virtual_name i.name)
        && i.operational
        && has_matter_ipv6 i)
      ifaces
    then ok tt
    else err no_ipv6_lan
