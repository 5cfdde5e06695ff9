-- ===== src/Pairing.antt =====
-- bridge/src/matter/pairing.rs: the pairing codes of an installation. `Codes` stands for the
-- functions of the rs-matter crate that compute them.
pub mod Examples
use thatsmatter.Base.{
  ℕ, ◌+◌, ◌*◌, ◌/◌, ◌%◌, ◌^◌, ◌<◌, ◌≡◌, refl, List, [], ◌∷◌, Option, none, some, arith, All, ap,
}
use thatsmatter.Base.Text.{Text}
use thatsmatter.Catalog.Model.{PairingMaterial}
use thatsmatter.Commissioning.{CommissioningMaterial}

-- `u32::to_le_bytes` and its inverse.
unfoldable pub to_le_bytes : ℕ → List ℕ
to_le_bytes n = n % 256 ∷ (n / 256) % 256 ∷ (n / 65536) % 256 ∷ (n / 16777216) % 256 ∷ []

unfoldable pub from_le_bytes : List ℕ → ℕ
from_le_bytes [] = 0
from_le_bytes (b ∷ bytes) = b + 256 * from_le_bytes bytes

pub record BasicCommData : Type 0 where
  pub password : List ℕ
  pub discriminator : ℕ

unfoldable pub basic_comm_data : CommissioningMaterial → BasicCommData
unfolding to_le_bytes
basic_comm_data m = record { password = to_le_bytes m.passcode; discriminator = m.discriminator }

-- `qr_text` is `none` when the payload does not fit its buffer.
pub record Codes : Type 0 where
  pub compute_pretty_pairing_code : BasicCommData → Text
  pub qr_text : BasicCommData → Option Text

unfoldable pub encode_qr_payload : Option Text → Text
encode_qr_payload none = []
encode_qr_payload (some text) = text

unfoldable pub pairing_material_for : Codes → CommissioningMaterial → PairingMaterial
unfolding basic_comm_data encode_qr_payload
pairing_material_for pairing m =
    let comm = basic_comm_data m in
    record {
      setup_code = pairing.compute_pretty_pairing_code comm;
      qr_payload = encode_qr_payload (pairing.qr_text comm);
      discriminator = m.discriminator;
      passcode = m.passcode;
    }

-- The Matter stack is given four bytes that spell the passcode shown, for every 32-bit passcode,
-- and the discriminator shown; the setup code is computed from what the stack is given, and so is
-- the QR text unless it does not fit.
shown_is_given :
    (pairing : Codes) (m : CommissioningMaterial)
    → m.passcode < 4294967296
    → (from_le_bytes (basic_comm_data m).password ≡ (pairing_material_for pairing m).passcode)
      × All (λ b. b < 256) (basic_comm_data m).password
      × ((basic_comm_data m).discriminator ≡ (pairing_material_for pairing m).discriminator)
      × ((pairing_material_for pairing m).setup_code
          ≡ pairing.compute_pretty_pairing_code (basic_comm_data m))
      × ((text : Text)
          → pairing.qr_text (basic_comm_data m) ≡ some text
          → (pairing_material_for pairing m).qr_payload ≡ text)
unfolding basic_comm_data to_le_bytes from_le_bytes pairing_material_for encode_qr_payload
shown_is_given pairing m h = (
  omega arith,
  (omega arith, (omega arith, (omega arith, (omega arith, tt)))),
  refl,
  refl,
  λ text e. rw e refl,
)
