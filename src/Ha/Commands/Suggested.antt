-- ===== src/Ha/Commands/Suggested.antt =====
-- `ha_service_for_on_off` of bridge/src/matter/on_off_map.rs against the service that
-- custom_components/thatsmatter/coordinator.py calls.
use thatsmatter.Base.{◌≡◌, ◌↔◌, refl, ap, Bool, true, any, List, ◌∷◌, [], Bool-cases, inl, inr}
use thatsmatter.Base.Text.{Text, codes, text_eq, text_eq→eq}
use thatsmatter.Catalog.Model.{Uuid, CommandKind}
use thatsmatter.Matter.OnOffMap.{before_dot, ha_service_for_on_off, on_off_command}
use thatsmatter.Ha.Commands.{service_call, on_off_service}

-- The domains that the bridge's suggestion knows, with the one that it falls back to.
abbrev on_off_domains : List Text
on_off_domains = codes "light" ∷ codes "input_boolean" ∷ codes "cover" ∷ codes "switch" ∷ []

module _ (entity_id : Text) (id : Uuid) (on : Bool) where
  -- The domain and the service that Home Assistant calls.
  abbrev called : Text × Text
  called =
      let c = service_call entity_id (on_off_command id on) CommandKind.on_off in
      (c.domain, c.service)

  known_followed :
      any (text_eq (before_dot entity_id)) on_off_domains ≡ true
      → called ≡ ha_service_for_on_off entity_id on
  unfolding service_call on_off_service ha_service_for_on_off on_off_command
  known_followed h = elim (Bool-cases (text_eq (before_dot entity_id) (codes "light"))) [
    | inl light ↦ rw (text_eq→eq (before_dot entity_id) (codes "light") light) refl
    | inr no_light ↦ elim (Bool-cases (text_eq (before_dot entity_id) (codes "input_boolean"))) [
      | inl boolean ↦ rw (text_eq→eq (before_dot entity_id) (codes "input_boolean") boolean) refl
      | inr no_boolean ↦ elim (Bool-cases (text_eq (before_dot entity_id) (codes "cover"))) [
        | inl cover ↦
            rw (text_eq→eq (before_dot entity_id) (codes "cover") cover)
              (elim (Bool-cases on) [ inl yes_on ↦ rw yes_on refl | inr no_on ↦ rw no_on refl ])
        | inr no_cover ↦ elim (Bool-cases (text_eq (before_dot entity_id) (codes "switch"))) [
          | inl switch ↦ rw (text_eq→eq (before_dot entity_id) (codes "switch") switch) refl
          | inr no_switch ↦ cc (rw (no_light, no_boolean, no_cover, no_switch) at h)
        ]
      ]
    ]
  ]

  followed_known :
      called ≡ ha_service_for_on_off entity_id on
      → any (text_eq (before_dot entity_id)) on_off_domains ≡ true
  unfolding service_call ha_service_for_on_off
  followed_known e = elim (Bool-cases (text_eq (before_dot entity_id) (codes "light"))) [
    | inl light ↦ rw light refl
    | inr no_light ↦ elim (Bool-cases (text_eq (before_dot entity_id) (codes "input_boolean"))) [
      | inl boolean ↦ rw (no_light, boolean) refl
      | inr no_boolean ↦ elim (Bool-cases (text_eq (before_dot entity_id) (codes "cover"))) [
        | inl cover ↦ rw (no_light, no_boolean, cover) refl
        | inr no_cover ↦
            let e' = rw (no_light, no_boolean, no_cover) at e in
            let switch : before_dot entity_id ≡ codes "switch" = ap (λ (p : Text × Text). p.0) e' in
            rw switch refl
      ]
    ]
  ]

  -- Home Assistant's call for an on or off is the one that the bridge suggests exactly if the
  -- entity's domain is light, input_boolean, cover or switch.
  suggestion_followed :
      (called ≡ ha_service_for_on_off entity_id on)
      ↔ (any (text_eq (before_dot entity_id)) on_off_domains ≡ true)
  suggestion_followed = (followed_known, known_followed)
