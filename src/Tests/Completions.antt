-- ===== src/Tests/Completions.antt =====
-- Completions of tasks and the validation of a review, at inputs where they end well.
use voice_pod_dispatcher.Prelude.{
  ◌≡◌, refl, true, none, some, List, [], ◌∷◌, inl, find_row, update_row, any, all,
}
use voice_pod_dispatcher.Launch.Check.{ok, refuse_if, invalid_if, at_key, needed}
use voice_pod_dispatcher.Launch.Schema.{
  waiting_dependency, ready, is_integrated, ReviewRecord, Wait, Task, Control,
}
use voice_pod_dispatcher.Launch.ReviewGate.{is_task, validate}
use voice_pod_dispatcher.Launch.Readiness.{
  dependency_status, new_state, task_contract, unmet, recompute_readiness,
}
use voice_pod_dispatcher.Launch.Sessions.{meta_of}
use voice_pod_dispatcher.Launch.Rows.{find_task}
use voice_pod_dispatcher.Launch.Work.{ResultArgs, complete}
use voice_pod_dispatcher.Launch.Commands.{do_complete, execute, after}
use voice_pod_dispatcher.Launch.Steps.{Step, execute-Step}
use voice_pod_dispatcher.Launch.Current.{recompute_readiness-new_state, complete-readies}
use voice_pod_dispatcher.Launch.Accepting.{IsFinal, complete-IsFinal}
use voice_pod_dispatcher.Launch.Independent.{IsIndependent, validate-IsIndependent}
use voice_pod_dispatcher.Tests.Runs.{clock, catalog, control, t1_done, t2, l42}

abbrev l42_done : ResultArgs
l42_done = record {
  task = "L42";
  attempt_id = "a2";
  outcome = is_integrated;
  unlock_dependents = true;
  output_sha = some "out";
  tree_sha = none;
  evidence = "log" ∷ [];
  reason = none;
  verdict = some "verdict.json";
}

abbrev recomputed : Control
recomputed = after control (recompute_readiness clock catalog none control)

abbrev waiting_t2 : Task
waiting_t2 = record t2 { waiting_for = Wait.on_task "T1" ∷ []; updated_at = 50 }

recompute_ok :
    (recompute_readiness clock catalog none control ≡ ok recomputed)
    × (find_row (is_task "T2") recomputed.tasks ≡ some waiting_t2)
unfolding recompute_readiness find_row at_key
recompute_ok = (refl, refl)

recompute_example :
    (waiting : List Wait) × (dependency_status clock.files recomputed.candidate recomputed.tasks
        (task_contract catalog waiting_t2)
      ≡ ok waiting)
    × (waiting_t2.state ≡ new_state waiting)
recompute_example =
    recompute_readiness-new_state clock catalog none control recomputed "T2" waiting_t2
      recompute_ok.0 recompute_ok.1 refl

abbrev completed : Control
completed = after control (complete clock catalog t1_done control)

abbrev ready_t2 : Task
ready_t2 = record t2 { state = ready; updated_at = 50 }

complete_ok :
    (complete clock catalog t1_done control ≡ ok completed)
    × (find_row (is_task "T2") completed.tasks ≡ some ready_t2)
    × (unmet completed.tasks (task_contract catalog ready_t2).depends_on ≡ ok [])
unfolding complete refuse_if at_key find_row needed update_row
complete_ok = (refl, refl, refl)

readies_example : ready_t2.state ≡ ready
unfolding task_contract find_row
readies_example =
    complete-readies clock catalog t1_done control completed "T2" ready_t2 complete_ok.0
      complete_ok.1 refl refl complete_ok.2

final_ok :
    complete clock catalog l42_done control
    ≡ ok (after control (complete clock catalog l42_done control))
unfolding complete refuse_if at_key find_row needed invalid_if any meta_of all update_row
final_ok = refl

found_l42 : find_task "L42" control ≡ some l42
unfolding find_task find_row
found_l42 = refl

acceptance_example : IsFinal clock catalog control l42
acceptance_example =
    complete-IsFinal clock catalog l42_done control
      (after control (complete clock catalog l42_done control)) l42 found_l42 (inl refl) refl
      final_ok

abbrev final_review : ReviewRecord
final_review = record {
  role = "final_review";
  candidate_sha = "cand";
  tree_sha = "tree";
  reviewer = "rev";
  packet = record { path = "verdict.json"; sha256 = "h" };
}

validate_ok : validate clock control catalog "verdict.json" "L42" "final_review" ≡ ok final_review
unfolding validate at_key find_row needed invalid_if any meta_of all
validate_ok = refl

review_example : IsIndependent clock control "verdict.json" "final_review" final_review
review_example =
    validate-IsIndependent clock control catalog "verdict.json" "L42" "final_review" final_review
      validate_ok

executed : execute clock catalog (do_complete t1_done) control ≡ ok completed
unfolding execute
executed = complete_ok.0

found_t2 : find_row (is_task "T2") control.tasks ≡ some t2
unfolding find_row
found_t2 = refl

-- T1 is completed, and T2, which waited for it, becomes READY.
Step-example :
    (r' : Task) × (find_row (is_task "T2") completed.tasks ≡ some r')
    × Step waiting_dependency r'.state
Step-example =
    execute-Step clock catalog (do_complete t1_done) control completed "T2" t2 found_t2 executed
