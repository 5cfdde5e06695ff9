-- ===== src/Ha/Commands/Reaches.antt =====
-- From a Matter controller's command to Home Assistant's service call: the dispatch and the queue of
-- bridge/src/matter/export_plane.rs, and the poll of custom_components/thatsmatter/coordinator.py.
use Prim.Native.Nat.{min}
use thatsmatter.Base.{
  ℕ, ◌≡◌, refl, sym, ap, ◌∙◌, Bool, true, false, not, List, [], ◌∷◌, ◌++◌, Option, none, some,
  arith, ltb, ok, inl, inr, Bool-cases, filter_map_snoc,
}
use thatsmatter.Base.Text.{text_eq, Text, codes}
use thatsmatter.Catalog.Model.{CommandKind, CommandRequest}
use thatsmatter.Matter.OnOffMap.{before_dot, on_off_command}
use thatsmatter.Matter.Ids.{AttrId}
use thatsmatter.Matter.WindowCovering.{validate_lift_percent100ths, percent100ths_to_ha_position}
use thatsmatter.Matter.Slot.{SlotKind, ExportSlot, CoverState}
use thatsmatter.Matter.Plane.{ExportPlane, slot_at}
use thatsmatter.Matter.Plane.Slots.{slot_at-endpoint}
use thatsmatter.Matter.Apply.{
  apply_controller_on_off, apply_controller_cover, take_commands, cover_request,
}
use thatsmatter.Matter.Dispatch.{
  Invocation, to_on_off, to_window_covering, to_other, OnOffCommand, off, on, toggle, CoverCommand,
  off_with_effect, on_with_recall_global_scene, on_with_timed_off, go_to_lift_value,
  go_to_tilt_value, go_to_tilt_percentage, up_or_open, down_or_close, stop_motion,
  go_to_lift_percentage, invoke,
}
use thatsmatter.Ha.Models.{HaExport}
use thatsmatter.Ha.Store.{get}
use thatsmatter.Ha.Commands.{
  ServiceCall, call, service_call, on_off_service, execute_command, execute_all,
}

-- What a controller's command asks of Home Assistant, for the entity of the endpoint's export.
abbrev service_name : Bool → Bool → Text
service_name true true = codes "open_cover"
service_name true false = codes "close_cover"
service_name false true = codes "turn_on"
service_name false false = codes "turn_off"

abbrev switched : Text → Bool → ServiceCall
switched entity_id value =
    let domain = before_dot entity_id in
    call domain (service_name (text_eq domain (codes "cover")) value) entity_id

abbrev pub asked_on_off : OnOffCommand → Bool → Text → Option ServiceCall
asked_on_off off current entity_id = some (switched entity_id false)
asked_on_off on current entity_id = some (switched entity_id true)
asked_on_off toggle current entity_id = some (switched entity_id (not current))
asked_on_off _ current entity_id = none

abbrev pub asked_cover : CoverCommand → Text → Option ServiceCall
asked_cover up_or_open entity_id = some (call (codes "cover") (codes "open_cover") entity_id)
asked_cover down_or_close entity_id = some (call (codes "cover") (codes "close_cover") entity_id)
asked_cover stop_motion entity_id = some (call (codes "cover") (codes "stop_cover") entity_id)
asked_cover (go_to_lift_percentage p) entity_id =
    some (record (call (codes "cover") (codes "set_cover_position") entity_id) {
      position = some (percent100ths_to_ha_position p);
    })
asked_cover _ entity_id = none

abbrev pub asked : Invocation → SlotKind → Text → Option ServiceCall
asked (to_on_off c) (SlotKind.on_off current) entity_id = asked_on_off c current entity_id
asked (to_window_covering c) (SlotKind.cover s) entity_id = asked_cover c entity_id
asked _ _ entity_id = none

-- The cover commands without a position.
abbrev is_motion : CommandKind → Bool
is_motion CommandKind.cover_open = true
is_motion CommandKind.cover_close = true
is_motion CommandKind.cover_stop = true
is_motion _ = false

-- A command for the slot's export, which asks for that call, has gone to the end of the queue.
record Sent (i : Invocation) (slot : ExportSlot) (plane plane' : ExportPlane) : Type 0 where
  command : CommandRequest
  for_export : command.export_id ≡ slot.export_id
  asks :
      (entity_id : Text)
      → asked i slot.kind entity_id ≡ some (service_call entity_id command command.kind)
  queue : plane'.commands ≡ plane.commands ++ command ∷ []

-- A position that Home Assistant clamps once more stays as it is.
in_range :
    (p : ℕ) → min 100 (min (percent100ths_to_ha_position p) 100) ≡ percent100ths_to_ha_position p
unfolding percent100ths_to_ha_position
in_range p = ground arith

execute_command-call :
    (exports : List HaExport) (cmd : CommandRequest) (l : HaExport)
    → get exports cmd.export_id ≡ some l
    → l.enabled ≡ true
    → execute_command exports cmd ≡ some (service_call l.primary_entity_id cmd cmd.kind)
unfolding execute_command
execute_command-call exports cmd l g e = rw (g, e) refl

module _ (ep : ℕ) (plane : ExportPlane) (slot : ExportSlot)
    (found : slot_at ep plane.slots ≡ some slot) where
  here : slot.matter_endpoint ≡ ep
  here = slot_at-endpoint ep plane.slots slot found

  on_off_service_lem :
      (domain : Text) (value : Bool)
      → on_off_service domain value ≡ service_name (text_eq domain (codes "cover")) value
  unfolding on_off_service
  on_off_service_lem domain true = ground arith
  on_off_service_lem domain false = ground arith

  on_off-Runs :
      (value b : Bool)
      → slot.kind ≡ SlotKind.on_off b
      → ((apply_controller_on_off ep value plane).1 ≡ true)
        × ((apply_controller_on_off ep value plane).0.commands
            ≡ plane.commands ++ on_off_command slot.export_id value ∷ [])
  unfolding apply_controller_on_off
  on_off-Runs value b e = rw found (ground arith)

  cover-Runs :
      (kind : CommandKind) (p : Option ℕ) (c : CoverState)
      → slot.kind ≡ SlotKind.cover c
      → is_motion kind ≡ true
      → ((apply_controller_cover ep kind p plane).1 ≡ true)
        × ((apply_controller_cover ep kind p plane).0.commands
            ≡ plane.commands ++ cover_request slot.export_id kind none ∷ [])
  unfolding apply_controller_cover
  cover-Runs kind p c e h = rw found (ground arith)

  go_to-Runs :
      (q : ℕ) (c : CoverState)
      → slot.kind ≡ SlotKind.cover c
      → ((apply_controller_cover ep CommandKind.cover_position (some q) plane).1 ≡ true)
        × ((apply_controller_cover ep CommandKind.cover_position (some q) plane).0.commands
            ≡ plane.commands
              ++ cover_request slot.export_id CommandKind.cover_position (some (min q 100)) ∷ [])
  unfolding apply_controller_cover
  go_to-Runs q c e = rw found (ground arith)

  switched-Sent :
      (i : Invocation) (value b : Bool) (plane' : ExportPlane)
      → slot.kind ≡ SlotKind.on_off b
      → plane' ≡ (apply_controller_on_off ep value plane).0
      → ((entity_id : Text) → asked i slot.kind entity_id ≡ some (switched entity_id value))
      → Sent i slot plane plane'
  switched-Sent i value b plane' e same asks = record {
    command = on_off_command slot.export_id value;
    for_export = unfold on_off_command in refl;
    asks = λ entity_id.
        asks entity_id
        ∙ ap (λ name. some (call (before_dot entity_id) name entity_id))
            (sym (on_off_service_lem (before_dot entity_id) value))
        ∙ (unfold on_off_command service_call in refl);
    queue = ap (λ (x : ExportPlane). x.commands) same ∙ (on_off-Runs value b e).1;
  }

  moved-Sent :
      (i : Invocation) (kind : CommandKind) (c : CoverState) (plane' : ExportPlane)
      → slot.kind ≡ SlotKind.cover c
      → is_motion kind ≡ true
      → plane' ≡ (apply_controller_cover ep kind none plane).0
      → ((entity_id : Text)
          → asked i slot.kind entity_id
            ≡ some (service_call entity_id (cover_request slot.export_id kind none) kind))
      → Sent i slot plane plane'
  moved-Sent i kind c plane' e h same asks = record {
    command = cover_request slot.export_id kind none;
    for_export = unfold cover_request in refl;
    asks = unfold cover_request in asks;
    queue = ap (λ (x : ExportPlane). x.commands) same ∙ (cover-Runs kind none c e h).1;
  }

  invoke-Sent :
      (i : Invocation) (k : SlotKind) (attrs : List AttrId)
      → slot.kind ≡ k
      → (invoke ep i plane).1 ≡ ok attrs
      → Sent i slot plane (invoke ep i plane).0
  unfolding invoke service_call cover_request validate_lift_percent100ths
  invoke-Sent (to_on_off off) (SlotKind.on_off b) attrs e h =
      switched-Sent (to_on_off off) false b _ e
        (rw (found, e, here, (on_off-Runs false b e).0) refl) (λ x. rw e refl)
  invoke-Sent (to_on_off on) (SlotKind.on_off b) attrs e h =
      switched-Sent (to_on_off on) true b _ e (rw (found, e, here, (on_off-Runs true b e).0) refl)
        (λ x. rw e refl)
  invoke-Sent (to_on_off toggle) (SlotKind.on_off b) attrs e h =
      switched-Sent (to_on_off toggle) (not b) b _ e
        (rw (found, e, here, (on_off-Runs (not b) b e).0) refl) (λ x. rw e refl)
  invoke-Sent (to_window_covering up_or_open) (SlotKind.cover c) attrs e h =
      moved-Sent (to_window_covering up_or_open) CommandKind.cover_open c _ e refl
        (rw (found, e, here, (cover-Runs CommandKind.cover_open none c e refl).0) refl)
        (λ x. rw e refl)
  invoke-Sent (to_window_covering down_or_close) (SlotKind.cover c) attrs e h =
      moved-Sent (to_window_covering down_or_close) CommandKind.cover_close c _ e refl
        (rw (found, e, here, (cover-Runs CommandKind.cover_close none c e refl).0) refl)
        (λ x. rw e refl)
  invoke-Sent (to_window_covering stop_motion) (SlotKind.cover c) attrs e h =
      moved-Sent (to_window_covering stop_motion) CommandKind.cover_stop c _ e refl
        (rw (found, e, here, (cover-Runs CommandKind.cover_stop none c e refl).0) refl)
        (λ x. rw e refl)
  invoke-Sent (to_window_covering (go_to_lift_percentage p)) (SlotKind.cover c) attrs e h =
      elim (Bool-cases (ltb 10000 p)) [
        | inl over ↦ cc (rw (found, e, over) at h)
        | inr within ↦
            let runs = go_to-Runs (percent100ths_to_ha_position p) c e in
            rw (found, e, within, here, runs.0)
              (record {
                command =
                    cover_request slot.export_id CommandKind.cover_position
                      (some (min (percent100ths_to_ha_position p) 100));
                for_export = refl;
                asks = λ x. rw (in_range p) refl;
                queue = runs.1;
              })
      ]
  invoke-Sent (to_on_off off_with_effect) (SlotKind.on_off b) attrs e h = cc (rw (found, e) at h)
  invoke-Sent (to_on_off on_with_recall_global_scene) (SlotKind.on_off b) attrs e h =
      cc (rw (found, e) at h)
  invoke-Sent (to_on_off on_with_timed_off) (SlotKind.on_off b) attrs e h = cc (rw (found, e) at h)
  invoke-Sent (to_window_covering go_to_lift_value) (SlotKind.cover c) attrs e h =
      cc (rw (found, e) at h)
  invoke-Sent (to_window_covering go_to_tilt_value) (SlotKind.cover c) attrs e h =
      cc (rw (found, e) at h)
  invoke-Sent (to_window_covering go_to_tilt_percentage) (SlotKind.cover c) attrs e h =
      cc (rw (found, e) at h)
  invoke-Sent to_other k attrs e h = let h' = rw found at h in cc
  invoke-Sent _ _ attrs e h = cc (rw (found, e) at h)

-- When a controller's invocation succeeds at an endpoint whose export Home Assistant has, enabled,
-- the next poll empties the queue, and Home Assistant makes the calls of the commands that were in
-- it and then, last, the call that the invocation asks for on the export's primary entity.
pub invoke_reaches_ha :
    (ep : ℕ) (i : Invocation) (plane : ExportPlane) (slot : ExportSlot) (attrs : List AttrId)
    (exports : List HaExport) (l : HaExport)
    → slot_at ep plane.slots ≡ some slot
    → (invoke ep i plane).1 ≡ ok attrs
    → get exports slot.export_id ≡ some l
    → l.enabled ≡ true
    → (c : ServiceCall) × (asked i slot.kind l.primary_entity_id ≡ some c)
      × (execute_all exports (take_commands (invoke ep i plane).0).1
          ≡ execute_all exports plane.commands ++ c ∷ [])
      × ((take_commands (invoke ep i plane).0).0.commands ≡ [])
unfolding take_commands
invoke_reaches_ha ep i plane slot attrs exports l found h g on_now =
    let sent = invoke-Sent ep plane slot found i slot.kind attrs refl h in
    let c = service_call l.primary_entity_id sent.command sent.command.kind in
    (
      c,
      sent.asks l.primary_entity_id,
      rw sent.queue (
          unfold execute_all in
          filter_map_snoc (execute_command exports) plane.commands sent.command c (
            execute_command-call exports sent.command l (ap (get exports) sent.for_export ∙ g)
              on_now)),
      refl,
    )
