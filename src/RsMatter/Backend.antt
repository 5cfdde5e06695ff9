-- ===== src/RsMatter/Backend.antt =====
-- The `MatterBackend` of bridge/src/matter/rs_matter_backend.rs behind the control plane, between
-- two changes of its flags. `Answers` is what one request meets: the clock, the random numbers of a
-- rebuild, what becomes of a window request that it posts, and how messages read.
use thatsmatter.Base.{
  ℕ, ◌+◌, ◌<◌, ◌≡◌, ◌≢◌, true, not, Option, none, some, arith, if◌then◌else◌, Result, ok, err, ap,
  sym, ◌∙◌,
}
use thatsmatter.Base.Map
use thatsmatter.Base.Text.{Text, codes}
use thatsmatter.Catalog.Model.{Uuid, Export}
use thatsmatter.Catalog.Persist.{Codec, PersistIo}
use thatsmatter.Catalog.Methods.Invariant.{IsWellFormed}
use thatsmatter.Matter.Plane
use thatsmatter.Matter.Plane.{ExportPlane, slot_for, endpoint_max}
use thatsmatter.Matter.Plane.Bridged.{Bridges, set_exports-Bridges}
use thatsmatter.Matter.Slot.{Versions}
use thatsmatter.Matter.Apply
use thatsmatter.Matter.WindowCovering.{ValueReads}
use thatsmatter.Matter.OnOffMap.{is_matter_bridged_export}
use thatsmatter.Matter.Window.{
  WindowOp, close_window, WindowError, StackOps, execute_window_op, pairing_open,
  clamp_pairing_timeout,
}
use thatsmatter.Matter.Mailbox.{PostError, in_flight, timed_out, refused_by_stack, open_op}
use thatsmatter.Ipc.{Backend, rs_matter, AppState}
use thatsmatter.Ipc.Sync.{
  Change, serve, good_status, refused, pushed, push_failed, serve-Served, method-IsWellFormed,
  catalog_err-status,
}
use thatsmatter.RsMatter.{StackError, RsMatterBackend}

-- What `post_window_request` comes to for the request of one call.
pub data Answer : Type 0 where
  mailbox_full : Answer
  nobody_answers : Answer
  executed : (now later : ℕ) → StackOps → Answer

post_error : Result WindowError (Unit {0}) → Result PostError (Unit {0})
post_error (ok u) = ok tt
post_error (err e) = err (refused_by_stack e)

unfoldable pub post_window_request :
    Answer → WindowOp → ExportPlane → Result PostError (Unit {0}) × ExportPlane
unfolding post_error
post_window_request mailbox_full op plane = (err in_flight, plane)
post_window_request nobody_answers op plane = (err timed_out, plane)
post_window_request (executed now later ops) op plane =
    let r = execute_window_op now later ops op plane in (post_error r.result, r.plane)

pub record Answers (V : Type 0) : Type 0 where
  pub now : ℕ
  pub random : Uuid → Versions
  pub answer : Answer
  pub post_message : PostError → Text
  pub stack_message : StackError → Text
  pub reads : ValueReads V

unfoldable pub lifted :
    {A : Type 0}
    → RsMatterBackend
    → Result PostError A × ExportPlane
    → (PostError → Text)
    → Result Text A × RsMatterBackend
lifted b (ok a, plane) message = (ok a, record b { plane = plane })
lifted b (err e, plane) message = (err (message e), record b { plane = plane })

abbrev pub message_of : (StackError → Text) → Option StackError → Option Text
message_of message none = none
message_of message (some e) = some (message e)

abbrev stack_not_running : Text
stack_not_running = codes "Matter stack is not running"

module _ {V : Type 0} (a : Answers V) where
  unfoldable pub open_pairing_window :
      ℕ → RsMatterBackend → Result Text (Unit {0}) × RsMatterBackend
  unfolding post_window_request lifted open_op
  open_pairing_window timeout_secs b =
      if not b.running
      then (err stack_not_running, b)
      else lifted b
          (post_window_request a.answer (open_op (clamp_pairing_timeout timeout_secs)) b.plane)
          a.post_message

  unfoldable pub close_pairing_window : RsMatterBackend → Result Text (Unit {0}) × RsMatterBackend
  unfolding post_window_request lifted
  close_pairing_window b =
      if not b.running
      then (err stack_not_running, b)
      else lifted b (post_window_request a.answer close_window b.plane) a.post_message

  -- The impl of `MatterBackend`.
  abbrev pub rs_backend : Backend V RsMatterBackend
  rs_backend = record {
    kind = rs_matter;
    is_running = λ b. b.running;
    pairing_open = λ b. pairing_open a.now b.plane;
    open_pairing_window = open_pairing_window;
    close_pairing_window = close_pairing_window;
    commissioned_fabrics = λ b. b.plane.fabric_count;
    set_exports =
        λ exports b. (ok tt, record b { plane = Plane.set_exports a.random exports b.plane });
    apply_state = λ id states b.
        let (plane, n) = Apply.apply_state a.reads id states b.plane in
        (ok n, record b { plane = plane });
    take_commands = λ b.
        let (plane, commands) = Apply.take_commands b.plane in
        (commands, record b { plane = plane });
    pairing_info = λ b. b.pairing;
    status_error = λ b. message_of a.stack_message b.error;
  }

module _ {Raw : Type 0} (codec : Codec Raw) (io : PersistIo) where
  module _ {V : Type 0} (a : Answers V) where
    -- A request that is answered with its success status leaves every enabled export of a bridged
    -- type in the catalog, but one at endpoint 65535, on the Matter side: the plane's slot under
    -- its id serves the endpoint one above its own, with the state that `rebuild_kind` carries over
    -- from the slot it had before. A request that is not leaves the backend as it was.
    pub serve-Bridges :
        (change : Change) (s : AppState Raw RsMatterBackend)
        → IsWellFormed s.catalog.store
        → ((serve (rs_backend a) codec io change s).0.status ≡ good_status change
            → (e : Export) (p : ℕ)
            → Map.get e.export_id (serve (rs_backend a) codec io change s).1.catalog.store.by_id
              ≡ some e
            → is_matter_bridged_export e ≡ true
            → e.endpoint_id ≡ some p
            → p < endpoint_max
            → Bridges e
                (p + 1)
                (slot_for e.export_id s.backend.plane.slots)
                (serve (rs_backend a) codec io change s).1.backend.plane.slots)
          × ((serve (rs_backend a) codec io change s).0.status ≢ good_status change
              → (serve (rs_backend a) codec io change s).1.backend ≡ s.backend)
    serve-Bridges change s w =
        let (same, served) = serve-Served (rs_backend a) codec io change s in
        elim served [
          | refused x f r b ↦
              (λ h. absurd (catalog_err-status x change (ap (λ x. x.status) (sym r) ∙ h)), λ h. b)
          | push_failed e m f q r b ↦ absurd (ground (arith, q))
          | pushed e f q r b ↦ (
            λ h d p g bridged q hi. rw b (
                set_exports-Bridges a.random _ s.backend.plane d p
                  (rw same (method-IsWellFormed codec io change s.catalog w)) g bridged q hi),
            λ h. absurd (h (ap (λ x. x.status) r)),
          )
        ]
