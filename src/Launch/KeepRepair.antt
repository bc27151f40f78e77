-- ===== src/Launch/KeepRepair.antt =====
-- The commands that repair or withdraw a task keep an invariant that meets the interface
-- (ci/control/orchestration_control.py).
use voice_pod_dispatcher.Prelude.{
  String, ◌≡◌, refl, true, false, not, some, ◌⊎◌, List, [], inl, inr,
}
use voice_pod_dispatcher.Launch.Check.{ok}
use voice_pod_dispatcher.Launch.Schema.{
  verified, same_state, state_in, is_integrated, Task, Control, Catalog,
}
use voice_pod_dispatcher.Launch.World.{World}
use voice_pod_dispatcher.Launch.Ensures.{
  Ensures, Ensures-ok, after_value, after_refusal, after_find, after_needed, Ensures-if,
}
use voice_pod_dispatcher.Launch.Changes.{
  Change-blocked, Change-unblocked, Change-promoted, Change-retired, Change-invalid, Change-quiet,
}
use voice_pod_dispatcher.Launch.Rule.{Rule, Rule-event, Rule-announce}
use voice_pod_dispatcher.Launch.Repair.{
  PromoteArgs, blocked_row, unblocked_row, retired_row, rewired_row,
}
use voice_pod_dispatcher.Launch.Contamination.{invalid_row, invalidatable}
use voice_pod_dispatcher.Launch.ReviewGate.{is_empty, distinct}
use voice_pod_dispatcher.Launch.Acceptance.{enforce_review_transition}
use voice_pod_dispatcher.Launch.Rows.{find_task, all_evidence, evidence_of, ensure_catalog}
use voice_pod_dispatcher.Launch.KeepWork.{same_id-enforce_review_transition}
use voice_pod_dispatcher.Launch.Repair.{
  block, unblock, promote, rewire, retire, check_support, check_closers, refuse_autofix,
}
use voice_pod_dispatcher.Launch.Contamination.{class_of, check_contaminated, invalidate}

module _ {Q R : Control → Type 0} (rule : Rule Q R) (w : World) (cat : Catalog) where
  pub Keeps-block :
      (i class reason evidence : String) (c : Control)
      → Q c
      → Ensures R (block w cat i class reason evidence c)
  unfolding block
  Keeps-block i class reason evidence c h = after_value (ensure_catalog cat c) _ (λ _ _.
      after_find (find_task i c) _ (λ r found. after_refusal _ _ (λ idle.
        after_refusal _ _ (λ open_state. after_value (evidence_of w.files evidence) _ (λ _ _.
          Ensures-ok _ (
            Rule-event rule w cat "TASK_BLOCKED" (some i) _ (
              rule.edit i (blocked_row w class reason) r c found
                (Change-blocked w class reason r idle open_state) h)))))))

  pub Keeps-unblock :
      (i evidence : String) (c : Control) → Q c → Ensures R (unblock w cat i evidence c)
  unfolding unblock
  Keeps-unblock i evidence c h = after_value (ensure_catalog cat c) _ (λ _ _.
      after_find (find_task i c) _ (λ r found. after_refusal _ _ (λ is_blocked.
        after_value (evidence_of w.files evidence) _ (λ _ _.
          Rule-announce rule w cat "TASK_UNBLOCKED" i _
            (rule.edit i (unblocked_row w) r c found (Change-unblocked w r is_blocked) h)))))

  pub Keeps-promote : (a : PromoteArgs) (c : Control) → Q c → Ensures R (promote w cat a c)
  unfolding promote
  Keeps-promote a c h = after_value (all_evidence w.files a.evidence) _ (λ evidence _.
      after_refusal (is_empty evidence) _ (λ _. after_value (ensure_catalog cat c) _ (λ _ _.
        after_find (find_task a.task c) _ (λ r found. after_refusal _ _ (λ is_built.
          after_refusal _ _ (λ _. after_value (check_support c a.supporting) _ (λ _ _.
            after_value (refuse_autofix w.files a.output_sha a.repo) _ (λ _ _.
              after_value (enforce_review_transition w cat c r is_integrated a.verdict) _
                (λ reviewed e. Rule-announce rule w cat "TASK_PROMOTED_TO_INTEGRATED" a.task _ (
                  rule.edit a.task _ r c found
                    (Change-promoted w a evidence r reviewed
                      ((same_id-enforce_review_transition w cat c r is_integrated a.verdict).at
                        reviewed e)
                      is_built)
                    h))))))))))

  pub Keeps-rewire :
      (i : String) (deps : List String) (c : Control) → Q c → Ensures R (rewire w cat i deps c)
  unfolding rewire
  Keeps-rewire i deps c h = after_value (ensure_catalog cat c) _ (λ _ _.
      after_needed (find_task i c) _ (λ r found. after_refusal _ _ (λ _. after_refusal _ _ (λ _.
        after_refusal _ _ (λ _. Rule-announce rule w cat "TASK_DEPENDENCIES_REWIRED" i _ (
          rule.edit i (rewired_row w (distinct deps [])) r c found (Change-quiet r _ refl refl refl)
            h))))))

  pub Keeps-retire :
      (i reason : String) (closers evidence : List String) (c : Control)
      → Q c
      → Ensures R (retire w cat i reason closers evidence c)
  unfolding retire
  Keeps-retire i reason closers evidence c h = after_value (ensure_catalog cat c) _ (λ _ _.
      after_needed (find_task i c) _ (λ r found. after_refusal _ _ (λ open_state.
        after_value (check_closers c (distinct closers [])) _ (λ _ _. after_refusal _ _ (λ _.
          after_refusal _ _ (λ _. Ensures-ok _ (
            Rule-event rule w cat "TASK_RETIRED" (some i) _ (
              rule.release_every i _ (
                rule.edit i (retired_row w reason) r c found (Change-retired w reason r open_state)
                  h)))))))))

  class_cases :
      (c : Control) (i reason evidence : String) (r : Task)
      → Ensures
          (λ _.
            (same_state r.state verified ≡ true) ⊎ (not (state_in r.state invalidatable) ≡ false))
          (class_of w.files c i reason evidence r)
  unfolding class_of
  class_cases c i reason evidence r =
      Ensures-if (same_state r.state verified) _ _
        (λ is_verified.
          after_value (check_contaminated w.files c i reason evidence r) _
            (λ _ _. Ensures-ok "CONTAMINATED" (inl is_verified)))
        (λ _.
          after_refusal (not (state_in r.state invalidatable)) (ok "INVALIDATED")
            (λ e. Ensures-ok "INVALIDATED" (inr e)))

  pub Keeps-invalidate :
      (i reason evidence : String) (c : Control)
      → Q c
      → Ensures R (invalidate w cat i reason evidence c)
  unfolding invalidate
  Keeps-invalidate i reason evidence c h = after_refusal (not (w.files.exists evidence)) _ (λ _.
      after_value (ensure_catalog cat c) _ (λ _ _. after_needed (find_task i c) _ (λ r found.
        after_refusal _ _ (λ _. after_value (class_of w.files c i reason evidence r) _ (λ class e.
          Ensures-ok _ (
            Rule-event rule w cat "TASK_INVALIDATED" (some i) _ (
              rule.release_every i _ (
                rule.edit i (invalid_row w class reason) r c found
                  (Change-invalid w class reason r ((class_cases c i reason evidence r).at class e))
                  h))))))))
