-- ===== src/RsMatter/Checks.antt =====
-- What `run_matter_stack` of bridge/src/matter/rs_matter_backend.rs has checked before it signals
-- that it is ready.
use thatsmatter.Base.{◌≡◌, ◌≢◌, refl, Option, Result, ok, err, Result-cases, List, arith, inl, inr}
use thatsmatter.Base.Text.{Text}
use thatsmatter.Matter.Plane.{ExportPlane}
use thatsmatter.RsMatter.{
  Host, StackError, MdnsChoice, prepare, or_fail, lan_ok, create_dir_failed, startup_failed,
  netifs_failed, Bind, addr_in_use, preflight_matter_udp_port, preflight_ipv4,
}
use thatsmatter.Lan
use thatsmatter.Lan.{UnixNetif, validate_for_start, pin_of}

preflight-ok :
    (v6 v4 : Bind)
    → preflight_matter_udp_port v6 v4 ≡ ok tt
    → (v6 ≢ addr_in_use) × (v4 ≢ addr_in_use)
unfolding preflight_matter_udp_port preflight_ipv4
preflight-ok v6 v4 h = (λ e. ground (arith, e, h), λ e. ground (arith, e, h))

or_fail-ok :
    {A : Type 0} (fail : Text → StackError) (r : Result Text A) (a : A)
    → or_fail fail r ≡ ok a
    → r ≡ ok a
unfolding or_fail
or_fail-ok fail (ok b) a h = ground (arith, h)
or_fail-ok fail (err e) a h = ground (arith, h)

lan_ok-ok : (r : Result Lan.StartError (Unit {0})) → lan_ok r ≡ ok tt → r ≡ ok tt
unfolding lan_ok
lan_ok-ok (ok tt) h = refl
lan_ok-ok (err e) h = ground (arith, h)

module _ (host : Host) (mdns_interface : Option Text) where
  -- The checks before readiness: the Matter port, the stack's own startup and the LAN interface.
  pub record Prepared : Type 0 where
    pub ports : (host.bind_ipv6 ≢ addr_in_use) × (host.bind_ipv4 ≢ addr_in_use)
    pub startup : host.startup ≡ ok tt
    pub netifs : List UnixNetif
    pub found : host.netifs ≡ ok netifs
    pub lan : validate_for_start (pin_of mdns_interface) netifs ≡ ok tt

  pub prepare-Prepared :
      (c : MdnsChoice) (plane : ExportPlane)
      → (prepare host mdns_interface plane).0 ≡ ok c
      → Prepared
  unfolding prepare
  prepare-Prepared c plane h =
      elim (Result-cases (preflight_matter_udp_port host.bind_ipv6 host.bind_ipv4)) [
        | inr (e, p) ↦ absurd (ground (arith, rw p at h))
        | inl (tt, p) ↦ elim (Result-cases (or_fail create_dir_failed host.create_data_dir)) [
          | inr (e, d) ↦ absurd (ground (arith, rw (p, d) at h))
          | inl (tt, d) ↦ elim (Result-cases (or_fail create_dir_failed host.create_store_dir)) [
            | inr (e, st) ↦ absurd (ground (arith, rw (p, d, st) at h))
            | inl (tt, st) ↦ elim (Result-cases (or_fail startup_failed host.startup)) [
              | inr (e, u) ↦ absurd (ground (arith, rw (p, d, st, u) at h))
              | inl (tt, u) ↦ elim (Result-cases (or_fail netifs_failed host.netifs)) [
                | inr (e, n) ↦ absurd (ground (arith, rw (p, d, st, u, n) at h))
                | inl (netifs, n) ↦
                    elim (Result-cases
                      (lan_ok (validate_for_start (pin_of mdns_interface) netifs))) [
                        | inr (e, l) ↦ absurd (ground (arith, rw (p, d, st, u, n, l) at h))
                        | inl (tt, l) ↦ record {
                          ports = preflight-ok host.bind_ipv6 host.bind_ipv4 p;
                          startup = or_fail-ok startup_failed host.startup tt u;
                          netifs = netifs;
                          found = or_fail-ok netifs_failed host.netifs netifs n;
                          lan = lan_ok-ok _ l;
                        }
                      ]
              ]
            ]
          ]
        ]
      ]
