-- ===== src/Ha/Manager/Examples.antt =====
-- Edits of a concrete catalog of Home Assistant.
use thatsmatter.Base.{◌≡◌, ◌≢◌, refl, true, false, List, [], ◌∷◌, none, some, err, arith}
use thatsmatter.Base.Text.{codes}
use thatsmatter.Catalog.Examples.{plain, saved-IsWellFormed}
use thatsmatter.Ha.Store.{ExportStore}
use thatsmatter.Ha.Client.{BridgeClientError, sync_catalog}
use thatsmatter.Ha.Manager.{Entity, Update, reset_export_name}
use thatsmatter.Ha.Store.Curated.{IsCurated}
use thatsmatter.Ha.Manager.Curated.{EditCall, edited_all, edited_all-IsCurated}
use thatsmatter.Ha.Manager.Renamed.{reset_name_blocks}
use thatsmatter.Ha.Examples.{home_exports, heater, reading_lamp, wide_name, dev, links, bridge}

abbrev home : ExportStore
home = record { exports = home_exports; saved = home_exports }

abbrev blind : Entity
blind = record { friendly_name = some (codes "Blind"); device_class = none; area_id = none }

abbrev wide : Entity
wide = record blind { friendly_name = some wide_name }

abbrev disabled : Update
disabled = record {
  name = none;
  type_key = none;
  enabled = some false;
  primary_entity_id = none;
  linked = none;
  area_id = none;
}

-- A blind is added, the lamp disabled, the heater removed, and the lamp takes over a name.
abbrev edits : List EditCall
edits =
    EditCall.add blind (codes "cover.blind") none none true [] none 11
    ∷ EditCall.update 7 disabled
    ∷ EditCall.remove 9
    ∷ EditCall.reset wide 7
    ∷ []

home-IsCurated : IsCurated home_exports
home-IsCurated = (((λ h. omega (arith, h), λ h. apart_names h), tt), (tt, tt))
  where
    apart_names : heater.primary_entity_id ≢ reading_lamp.primary_entity_id
    apart_names h = cc

edited_all-IsCurated_example : IsCurated (edited_all edits home).exports
edited_all-IsCurated_example = edited_all-IsCurated edits home home-IsCurated

reset_name_blocks_example :
    (e : BridgeClientError) × ((sync_catalog dev plain links true
        (reset_export_name wide 7 home).1.exports
        bridge).0
      ≡ err e)
unfolding thatsmatter.Ha.Store.get thatsmatter.Ha.Manager.friendly_name
reset_name_blocks_example =
    reset_name_blocks dev plain links wide 7 home reading_lamp true bridge home-IsCurated refl
      (omega arith) saved-IsWellFormed
