-- ===== src/Matter/Run/Settled.antt =====
-- What one pass of the loop `run` of bridge/src/matter/export_plane.rs comes to.
use thatsmatter.Base.{
  ℕ, ◌≤◌, ◌<◌, ◌≡◌, refl, Bool, true, List, [], ◌∷◌, ◌++◌, map, Option, none, some, arith, ◌==◌,
  if◌then◌else◌, Bool-cases, inl, inr, ap, sym, ◌∙◌,
}
use thatsmatter.Matter.Ids.{desc}
use thatsmatter.Matter.Plane.{ExportPlane, aggregator_endpoint_id}
use thatsmatter.Matter.Reports.{drain_reports, all_reports}
use thatsmatter.Matter.Reports.Drain.{drain_reports_twice}
use thatsmatter.Matter.Generation.{acknowledge}
use thatsmatter.Matter.Window.{open_window}
use thatsmatter.Matter.Window.Keeps.{
  Keeps, execute-Keeps, sample-Keeps, sample_closes, contains_open, open-calls,
}
use thatsmatter.Matter.Mailbox.{WindowRequest, take_request}
use thatsmatter.Matter.Run.{
  PassAnswers, pass, sample_fabrics, drain_window_request, drain_config, acknowledged, Notified,
  cluster_changed, attr_changed, read_fabric_count, root_endpoint_id,
}

-- A configuration change that waits is bumped and announced once.
abbrev pub announced : ExportPlane → List Notified
announced plane =
    if plane.config_requested == plane.config_applied
    then []
    else cluster_changed root_endpoint_id desc ∷ cluster_changed aggregator_endpoint_id desc ∷ []

announced-same :
    (p q : ExportPlane)
    → p.config_requested ≡ q.config_requested
    → p.config_applied ≡ q.config_applied
    → announced p ≡ announced q
announced-same p q r a = rw (r, a) refl

drain_config-rest :
    (bumps : List Bool) (plane : ExportPlane)
    → (plane.config_requested == plane.config_applied) ≡ true
    → drain_config bumps plane ≡ (plane, [])
unfolding drain_config
drain_config-rest [] plane h = refl
drain_config-rest (b ∷ bumps) plane h = rw h refl

acknowledged-settled :
    (plane : ExportPlane)
    → plane.config_applied ≤ plane.config_requested
    → acknowledge plane.config_applied plane.config_requested ≡ plane.config_requested
unfolding acknowledge
acknowledged-settled plane h = ground (arith, h)

same_true : (n m : ℕ) → m ≡ n → (n == m) ≡ true
same_true n m e = ground (arith, e)

drain_config-applies :
    (bumps : List Bool) (plane : ExportPlane)
    → plane.config_applied ≤ plane.config_requested
    → ((drain_config (true ∷ bumps) plane).0.config_applied ≡ plane.config_requested)
      × ((drain_config (true ∷ bumps) plane).0.config_requested ≡ plane.config_requested)
      × ((drain_config (true ∷ bumps) plane).0.slots ≡ plane.slots)
      × ((drain_config (true ∷ bumps) plane).1 ≡ announced plane)
unfolding drain_config acknowledged
drain_config-applies bumps plane h =
    elim (Bool-cases (plane.config_requested == plane.config_applied)) [
      | inl t ↦ rw t (ground (arith, t), refl, refl, refl)
      | inr f ↦
          let settled = acknowledged-settled plane h in
          let rest = drain_config-rest bumps (acknowledged plane) (same_true _ _ settled) in
          rw (f, rest) (settled, refl, refl, refl)
    ]

module _ (a : PassAnswers) (mailbox : Option WindowRequest) (plane : ExportPlane) where
  -- The plane once the fabrics are sampled and the request carried out.
  served : ExportPlane
  served = (drain_window_request a mailbox (sample_fabrics a plane)).plane

  served-Keeps :
      (m : Option WindowRequest)
      → Keeps plane (drain_window_request a m (sample_fabrics a plane)).plane
  unfolding drain_window_request sample_fabrics take_request
  served-Keeps none = sample-Keeps a.sampled_at (read_fabric_count a.fabrics) plane
  served-Keeps (some r) =
      let first = sample-Keeps a.sampled_at (read_fabric_count a.fabrics) plane in
      let then_ = execute-Keeps a.now a.later a.ops r.op (sample_fabrics a plane) in
      record {
        slots = then_.slots ∙ first.slots;
        requested = then_.requested ∙ first.requested;
        applied = then_.applied ∙ first.applied;
      }

  -- A pass whose next bump succeeds, if it makes any, leaves nothing to do: the configuration
  -- change is applied, no slot owes a report, the mailbox is empty; and it has notified just once
  -- of the change, if there was one, and then of every report that the slots owed.
  pub pass_settles :
      (bumps : List Bool)
      → a.bumps ≡ true ∷ bumps
      → plane.config_applied ≤ plane.config_requested
      → ((pass a mailbox plane).plane.config_applied
          ≡ (pass a mailbox plane).plane.config_requested)
        × ((drain_reports (pass a mailbox plane).plane).1 ≡ [])
        × ((pass a mailbox plane).mailbox ≡ none)
        × ((pass a mailbox plane).notified
            ≡ announced plane ++ map attr_changed (all_reports plane.slots))
  unfolding pass drain_reports served
  pass_settles bumps b h =
      let k = served-Keeps mailbox in
      let d = drain_config-applies bumps served (rw (k.requested, k.applied) h) in
      rw b (
        d.0 ∙ sym d.1,
        (drain_reports_twice (drain_config (true ∷ bumps) served).0).0,
        refl,
        rw (d.3, d.2, k.slots)
            (ap (λ x. x ++ map attr_changed (all_reports plane.slots))
              (announced-same served plane k.requested k.applied)),
      )

  -- An open request in the same pass in which the stack has more fabrics than were known is not
  -- answered by the window that was open before: the stack is asked to open one, for the request's
  -- timeout.
  pass_reopens :
      (call t : ℕ)
      → mailbox ≡ some (record { call = call; op = open_window t })
      → plane.fabric_count < read_fabric_count a.fabrics
      → contains_open t (pass a mailbox plane).calls ≡ true
  unfolding pass drain_window_request take_request sample_fabrics
  pass_reopens call t m h = rw m (
      open-calls a.now a.later t a.ops _
        (sample_closes a.sampled_at (read_fabric_count a.fabrics) a.now plane h))
