-- ===== src/Pairing/Examples.antt =====
-- The pairing codes of bridge/src/matter/pairing.rs for concrete material.
use thatsmatter.Base.{some}
use thatsmatter.Base.Text.{codes}
use thatsmatter.Commissioning.{CommissioningMaterial}
use thatsmatter.Pairing.{Codes}

abbrev pub known : CommissioningMaterial
known = record { passcode = 20202021; discriminator = 3840 }

abbrev pub fixed : Codes
fixed = record {
  compute_pretty_pairing_code = λ comm. codes "3497-0112-332";
  qr_text = λ comm. some (codes "MT:");
}
