-- ===== src/Matter/Run/Examples.antt =====
-- The loop of bridge/src/matter/export_plane.rs on a concrete plane.
use thatsmatter.Base.{◌≡◌, refl, true, [], ◌∷◌, ◌++◌, map, none, some, arith, ok}
use thatsmatter.Matter.Examples.{bridge}
use thatsmatter.Matter.Plane.{ExportPlane}
use thatsmatter.Matter.Reports.{drain_reports, all_reports}
use thatsmatter.Matter.Window.{open_window}
use thatsmatter.Matter.Mailbox.{WindowRequest}
use thatsmatter.Matter.Run.{PassAnswers, pass, attr_changed}
use thatsmatter.Matter.Run.Settled.{announced, pass_settles}

abbrev answers : PassAnswers
answers = record {
  fabrics = 1;
  sampled_at = 100;
  now = 100;
  later = 101;
  ops = record { count_before = 1; count_after = 1; opened = ok tt; closed = ok true };
  bumps = true ∷ [];
}

abbrev ask : WindowRequest
ask = record { call = 0; op = open_window 300 }

-- A plane with a configuration change that waits.
abbrev changed : ExportPlane
changed = record bridge { window_deadline = 500; config_requested = 1 }

pass_settles_example :
    ((pass answers (some ask) changed).plane.config_applied
      ≡ (pass answers (some ask) changed).plane.config_requested)
    × ((drain_reports (pass answers (some ask) changed).plane).1 ≡ [])
    × ((pass answers (some ask) changed).mailbox ≡ none)
    × ((pass answers (some ask) changed).notified
        ≡ announced changed ++ map attr_changed (all_reports changed.slots))
unfolding thatsmatter.Matter.Plane.set_exports thatsmatter.Matter.Plane.new
pass_settles_example = pass_settles answers (some ask) changed [] refl (omega arith)
