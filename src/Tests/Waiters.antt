-- ===== src/Tests/Waiters.antt =====
-- A run that waits for the lock of the postgres server, beside the debris of two others.
use voice_pod_dispatcher.Prelude.{ℕ, ◌==◌, Option, none, some, List, [], ◌∷◌, if◌then◌else◌}
use voice_pod_dispatcher.Waits.Verdict.{Lock, held}
use voice_pod_dispatcher.Waits.Population.{Marker, BoxRun, Sights, row}
use voice_pod_dispatcher.Waits.Stalled.{Waits}

-- The process 7 lives and started at 1000, process 8 at 5000.
abbrev box : Sights
box = record {
  start_time = λ pid. if pid == 7 then some 1000 else if pid == 8 then some 5000 else none;
  box_owner = some "lane-004";
  postmaster = λ pgdata. none;
}

abbrev marker : ℕ → Marker
marker pid = record {
  owner_pid = some pid;
  owner_started_at = some 1000;
  suite_root = some "wt/lane-004/platform";
  pgdata = none;
  session = "s";
}

abbrev markers : List Marker
markers = marker 6 ∷ marker 8 ∷ marker 7 ∷ []

abbrev waiter : BoxRun
waiter = row box (marker 7) 7 1000

abbrev lock : Option Lock
lock = some (record { state = held; pid = some 9 })
