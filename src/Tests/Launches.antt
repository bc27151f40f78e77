-- ===== src/Tests/Launches.antt =====
-- Histories and single calls of the launch scheduler.
use voice_pod_dispatcher.Prelude.{
  inl, ℕ, ◌<◌, ◌≢◌, select, String, arith, ◌≡◌, refl, true, false, none, some, List, [], ◌∷◌, ◌⊎◌,
  find_row,
}
use voice_pod_dispatcher.Launch.Check.{ok, each, exit_if, refuse_if}
use voice_pod_dispatcher.Launch.Schema.{integrated, Control, Task, Catalog, state_in}
use voice_pod_dispatcher.Launch.World.{World}
use voice_pod_dispatcher.Launch.Journal.{Disk, flush_publications}
use voice_pod_dispatcher.Launch.ReviewGate.{is_task}
use voice_pod_dispatcher.Launch.Readiness.{refresh, refresh_rows}
use voice_pod_dispatcher.Launch.Claiming.{ClaimArgs}
use voice_pod_dispatcher.Launch.Verify.{active_claims, claim_problems}
use voice_pod_dispatcher.Launch.Commands.{
  Command, do_complete, do_claim, do_allocate, history, execute, run,
}
use voice_pod_dispatcher.Launch.Sessions.{reviewer_chain, max_of}
use voice_pod_dispatcher.Launch.Rows.{find_task, ensure_catalog}
use voice_pod_dispatcher.Launch.Journal.{write_event}
use voice_pod_dispatcher.Launch.Apart.{AllApart, history-claim_problems}
use voice_pod_dispatcher.Launch.Rowwise.{AllSound}
use voice_pod_dispatcher.Launch.Progress.{history_ends, history-settled, settled, history-AllSound}
use voice_pod_dispatcher.Launch.Migrations.{
  migration_floor, allocate, exiting, number_for, own_number, reuse_or, fresh_number,
  migration_ceiling, add_migration,
}
use voice_pod_dispatcher.Launch.Distinct.{allocate-Distinct}
use voice_pod_dispatcher.Launch.Refreshing.{refresh_rows-each}
use voice_pod_dispatcher.Launch.Outbox.{
  Remain, AllFiled, Outcome, run-Outcome, flush_publications-again,
}
use voice_pod_dispatcher.Launch.Ancestors.{IsChain, reviewer_chain-IsChain}
use voice_pod_dispatcher.Tests.Runs.{
  clock, catalog, control, t2, t1_done, t1, l35, reviewer_meta, lead_meta, first_event,
}

abbrev t2_claimed : ClaimArgs
t2_claimed = record {
  task = "T2";
  chief = "A";
  attempt_id = "a3";
  claim_id = none;
  base_sha = "out";
  paths = "src/a/b" ∷ [];
  transferred = false;
  stacked_base = none;
  stacked_on = [];
}

-- T1 is completed, its dependant T2 claims a path below the one that T1 had, and asks for a number.
abbrev steps : List (World × Catalog × Command)
steps =
    (clock, catalog, do_allocate "T2" false)
    ∷ (clock, catalog, do_claim t2_claimed)
    ∷ (clock, catalog, do_complete t1_done)
    ∷ []

claims_example :
    AllApart (history steps control).claims
    × (claim_problems (active_claims (history steps control).claims) ≡ ok [])
claims_example = history-claim_problems steps control (tt, tt)

found_l35 : find_row (is_task "L35") control.tasks ≡ some l35
unfolding find_row
found_l35 = refl

abbrev done : Task
done = record t1 { state = integrated }

abbrev with_done : Control
with_done = record control { tasks = done ∷ t2 ∷ [] }

found_done : find_row (is_task "T1") with_done.tasks ≡ some done
unfolding find_row
found_done = refl

ends_example :
    (r' : Task) × (find_row (is_task "T1") (history steps with_done).tasks ≡ some r')
    × (r'.state ≡ integrated)
ends_example = history_ends steps with_done "T1" done found_done (inl refl)

settled_example :
    (r' : Task) × (find_row (is_task "L35") (history steps control).tasks ≡ some r')
    × (state_in r'.state settled ≡ true)
settled_example = history-settled steps control "L35" l35 found_l35 refl

sound_tasks : AllSound control.tasks
sound_tasks = (never, (never, ((λ e. refl), (never, (never, tt)))))
  where
    never : {b : _} → false ≡ true → b ≡ true
    never e = absurd (ground arith)

sound_example : AllSound (history steps control).tasks
sound_example = history-AllSound steps control sound_tasks

-- T2 gets 272, T1 asks for another number and gets 273, and T2 gets its own number again.
abbrev with_272 : Control
with_272 = (fresh_number clock "T2" control).1

first_given : allocate clock catalog "T2" false control ≡ ok (272, with_272)
unfolding allocate ensure_catalog find_task exiting exit_if refuse_if number_for own_number reuse_or
    fresh_number migration_ceiling find_row max_of select
first_given = refl

abbrev between : List (World × Catalog × Command)
between = (clock, catalog, do_allocate "T1" true) ∷ []

given_again :
    allocate clock catalog "T2" false (history between with_272)
    ≡ ok (272, history between with_272)
unfolding history execute allocate ensure_catalog find_task exiting exit_if refuse_if number_for
    own_number reuse_or fresh_number migration_ceiling add_migration write_event find_row max_of
    select
given_again = refl

allocate_example :
    (migration_floor < 272)
    × (migration_floor < 272)
    × ((◌≢◌ {A = ℕ} 272 272) ⊎ ((◌≡◌ {A = String} "T2" "T2") × (false ≡ false)))
allocate_example =
    allocate-Distinct clock clock catalog catalog "T2" "T2" false false between control with_272
      (history between with_272) 272 272 refl first_given given_again

at_once_example :
    refresh_rows clock catalog control.candidate [] control.tasks
    ≡ each (refresh clock catalog control.candidate control.tasks) control.tasks
at_once_example = refresh_rows-each clock catalog control.candidate control.tasks

abbrev disk : Disk
disk = record { state = control; files = [] }

run_example :
    Outcome
      (execute clock catalog (do_complete t1_done) control)
      control
      (run clock catalog (do_complete t1_done) disk)
    × Remain [] (run clock catalog (do_complete t1_done) disk).0.files
run_example = run-Outcome clock catalog (do_complete t1_done) disk

flushed : flush_publications (first_event ∷ []) [] ≡ (first_event ∷ [], ok tt)
unfolding flush_publications find_row
flushed = refl

flush_example :
    AllFiled (first_event ∷ []) (first_event ∷ [])
    × (flush_publications (first_event ∷ []) (first_event ∷ []) ≡ (first_event ∷ [], ok tt))
flush_example = flush_publications-again (first_event ∷ []) [] (first_event ∷ []) flushed

circle_example :
    (chain : List String) × (reviewer_chain (reviewer_meta ∷ lead_meta ∷ []) "rev" ≡ some chain)
    × IsChain (reviewer_meta ∷ lead_meta ∷ []) "rev" chain
circle_example = reviewer_chain-IsChain (reviewer_meta ∷ lead_meta ∷ []) "rev"
