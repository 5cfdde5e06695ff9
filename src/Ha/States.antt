-- ===== src/Ha/States.antt =====
-- The states that Home Assistant pushes: `async_push_export_state`, `async_push_all_states` and
-- `_async_handle_state_event` of custom_components/thatsmatter/coordinator.py. The states of the
-- entities are an argument, which stay as they are while they are pushed; `arrives` says of which
-- export the push reaches the bridge.
pub mod Reflected
pub mod Examples
use thatsmatter.Base.{
  ℕ, ◌≡◌, refl, Bool, true, false, List, [], ◌∷◌, Option, none, some, if◌then◌else◌, filter_map,
  filter, map,
}
use thatsmatter.Base.Text.{Text}
use thatsmatter.Catalog.Model.{Uuid, HaStateValue}
use thatsmatter.Ipc.{Backend, AppState, push_state}
use thatsmatter.Ha.Models.{HaExport}
use thatsmatter.Ha.Store.{find_by_entity}

-- `hass.states.get`: the state and the attributes of an entity that has them.
abbrev pub HomeStates : Type 0 → Type 0
HomeStates V = Text → Option (Text × List (Text × V))

-- `ha_state_value`.
unfoldable pub ha_state_value : {V : Type 0} → Text → Text → List (Text × V) → HaStateValue V
ha_state_value entity_id state attributes = record {
  entity_id = entity_id;
  state = state;
  attributes = attributes;
}

state_of : {V : Type 0} → HomeStates V → Text → Option (HaStateValue V)
unfolding ha_state_value
state_of home entity_id = elim (home entity_id) [
  | none ↦ none
  | some (state, attributes) ↦ some (ha_state_value entity_id state attributes)
]

-- The states of the export's entities that have one.
unfoldable pub export_states : {V : Type 0} → HomeStates V → HaExport → List (HaStateValue V)
unfolding state_of
export_states home e =
    filter_map (state_of home) (e.primary_entity_id ∷ map (λ (x : Text × Text). x.1) e.linked)

module _ {V Raw B : Type 0} (backend : Backend V B) (arrives : Uuid → Bool) where
  -- An answer that is an error is logged, so that nothing but the bridge's state is left of it.
  send_states : Uuid → List (HaStateValue V) → AppState Raw B → AppState Raw B
  send_states export_id [] s = s
  send_states export_id (x ∷ states) s =
      let (_, s') =
        push_state backend export_id
          (record { is_empty = false; update = some (x ∷ states); single = none }) s in
      if arrives export_id then s' else s

  unfoldable pub async_push_export_state : HomeStates V → HaExport → AppState Raw B → AppState Raw B
  unfolding send_states export_states
  async_push_export_state home e s = send_states e.export_id (export_states home e) s

  unfoldable pub push_each : HomeStates V → List HaExport → AppState Raw B → AppState Raw B
  unfolding async_push_export_state
  push_each home [] s = s
  push_each home (e ∷ es) s = push_each home es (async_push_export_state home e s)

  unfoldable pub async_push_all_states :
      HomeStates V → List HaExport → AppState Raw B → AppState Raw B
  unfolding push_each
  async_push_all_states home exports s = push_each home (filter (λ e. e.enabled) exports) s

  -- `connected` is `bridge_connected`.
  unfoldable pub async_handle_state_event :
      Bool → HomeStates V → List HaExport → Text → AppState Raw B → AppState Raw B
  unfolding push_each find_by_entity
  async_handle_state_event connected home exports entity_id s =
      if connected then push_each home (find_by_entity entity_id exports) s else s
