-- ===== src/Launch/KeepWork.antt =====
-- The commands on the work of a task keep an invariant that meets the interface
-- (ci/control/orchestration_control.py).
use voice_pod_dispatcher.Prelude.{
  String, ◌≡◌, refl, true, false, not, Option, none, some, List, arith, truthy, is_some, find_row,
}
use voice_pod_dispatcher.Launch.Check.{ok, each}
use voice_pod_dispatcher.Launch.Schema.{
  state_in, accepted, Outcome, outcome_state, Task, Control, Catalog, prepared,
}
use voice_pod_dispatcher.Launch.World.{World}
use voice_pod_dispatcher.Launch.Ensures.{
  Ensures, Ensures-ok, after_value, after_refusal, after_find, after_needed, Ensures-if,
}
use voice_pod_dispatcher.Launch.Changes.{
  Change-completed, Change-adopted, Change-started, Change-claimed,
}
use voice_pod_dispatcher.Launch.Rule.{Rule, Rule-event, Rule-announce}
use voice_pod_dispatcher.Launch.Claiming.{
  ClaimArgs, claimed_row, require_active, new_claim, claim, claim_task, refuse_conflicts,
  refuse_stale, check_stack,
}
use voice_pod_dispatcher.Launch.Paths.{normalize_path}
use voice_pod_dispatcher.Launch.ReviewGate.{is_empty, validate, route_in, is_task}
use voice_pod_dispatcher.Launch.Acceptance.{
  enforce_review_transition, review_as, role_needed, consolidated, dependencies_met,
}
use voice_pod_dispatcher.Launch.Rows.{
  find_task, edit_task, is_claim, put_claim, all_evidence, ensure_catalog,
}
use voice_pod_dispatcher.Launch.Work.{
  ResultArgs, InstantiateArgs, StartArgs, with_result, release_own, complete, adopt, started, start,
  new_task, instantiate, is_template, review_key_of,
}

same_id-review_as :
    (w : World) (cat : Catalog) (c : Control) (r : Task) (verdict : Option String) (role : String)
    → Ensures (λ r'. r'.task_id ≡ r.task_id) (review_as w cat c r verdict role)
unfolding review_as
same_id-review_as w cat c r verdict role = after_refusal (not (truthy verdict)) _ (λ _.
    after_needed verdict _ (λ packet _.
      after_value (validate w c cat packet r.task_id role) _ (λ v _.
        after_value (consolidated w c r) _
          (λ _ _. after_value (dependencies_met w cat c r) _ (λ _ _. Ensures-ok _ refl)))))

same_id-for_role :
    (needed_role : Option String) (w : World) (cat : Catalog) (c : Control) (r : Task)
    (verdict : Option String)
    → Ensures
        (λ r'. r'.task_id ≡ r.task_id)
        (elim needed_role [ none ↦ ok r | some role ↦ review_as w cat c r verdict role ])
same_id-for_role none w cat c r verdict = Ensures-ok r refl
same_id-for_role (some role) w cat c r verdict = same_id-review_as w cat c r verdict role

-- The result of a review changes the reviews of a row only.
pub same_id-enforce_review_transition :
    (w : World) (cat : Catalog) (c : Control) (r : Task) (o : Outcome) (verdict : Option String)
    → Ensures (λ r'. r'.task_id ≡ r.task_id) (enforce_review_transition w cat c r o verdict)
unfolding enforce_review_transition
same_id-enforce_review_transition w cat c r o verdict =
    Ensures-if (state_in (outcome_state o) accepted) _ _
      (λ _. same_id-for_role (role_needed r) w cat c r verdict) (λ _. Ensures-ok r refl)

absent : {A : Type 0} (o : Option A) → is_some o ≡ false → o ≡ none
absent none e = refl
absent (some a) e = absurd (ground arith)

module _ {Q R : Control → Type 0} (rule : Rule Q R) (w : World) (cat : Catalog) where
  pub Keeps-start : (a : StartArgs) (c : Control) → Q c → Ensures R (start w cat a c)
  unfolding start
  Keeps-start a c h = after_value (ensure_catalog cat c) _ (λ _ _.
      after_value (require_active c) _ (λ _ _. after_find (find_task a.task c) _ (λ r found.
        after_refusal _ _ (λ is_claimed. after_refusal _ _ (λ _. Ensures-ok _ (
          Rule-event rule w cat "TASK_STARTED" (some a.task) _
            (rule.edit a.task (started w a) r c found (Change-started w a r is_claimed) h)))))))

  Keeps-release_own : (r : Task) (c : Control) → R c → Ensures R (release_own r c)
  unfolding release_own
  Keeps-release_own r c h =
      Ensures-if (truthy r.claim_id) _ _
        (λ _. after_needed r.claim_id _ (λ i _.
          after_find (find_row (is_claim i) c.claims) _ (λ _ _. Ensures-ok _ (rule.release i c h))))
        (λ _. Ensures-ok c h)

  pub Keeps-complete : (a : ResultArgs) (c : Control) → Q c → Ensures R (complete w cat a c)
  unfolding complete
  Keeps-complete a c h = after_value (all_evidence w.files a.evidence) _ (λ evidence _.
      after_value (ensure_catalog cat c) _ (λ _ _. after_find (find_task a.task c) _ (λ r found.
        after_refusal _ _ (λ is_running. after_refusal _ _ (λ honest. after_refusal _ _ (λ _.
          after_value (enforce_review_transition w cat c r a.outcome a.verdict) _ (λ reviewed e.
            after_value
              (release_own r (edit_task a.task (λ _. with_result w a evidence reviewed) c)) _
              (λ c' e'. Rule-announce rule w cat "TASK_COMPLETED" a.task c' (
                (Keeps-release_own r _ (
                    rule.edit a.task _ r c found
                      (Change-completed w a evidence r reviewed
                        ((same_id-enforce_review_transition w cat c r a.outcome a.verdict).at
                          reviewed e)
                        is_running honest)
                      h)).at
                  c' e')))))))))

  pub Keeps-adopt : (a : ResultArgs) (c : Control) → Q c → Ensures R (adopt w cat a c)
  unfolding adopt
  Keeps-adopt a c h = after_value (all_evidence w.files a.evidence) _ (λ evidence _.
      after_refusal (is_empty evidence) _ (λ _. after_value (ensure_catalog cat c) _ (λ _ _.
        after_refusal (elim c.phase [ prepared ↦ false | _ ↦ true ]) _
          (λ _. after_find (find_task a.task c) _ (λ r found. after_refusal _ _ (λ is_unstarted.
            after_refusal _ _ (λ honest.
              after_value (enforce_review_transition w cat c r a.outcome a.verdict) _ (λ reviewed e.
                Rule-announce rule w cat "PRESERVED_RESULT_ADOPTED" a.task _ (
                  rule.edit a.task _ r c found
                    (Change-adopted w a evidence r reviewed
                      ((same_id-enforce_review_transition w cat c r a.outcome a.verdict).at reviewed
                        e)
                      is_unstarted honest)
                    h)))))))))

  pub Keeps-instantiate :
      (a : InstantiateArgs) (c : Control) → Q c → Ensures R (instantiate w cat a c)
  unfolding instantiate find_task new_task
  Keeps-instantiate a c h = after_value (ensure_catalog cat c) _ (λ _ _.
      after_refusal _ _ (λ is_new.
        after_needed (find_row (is_template a.template) cat.templates) _ (λ t _.
          after_refusal _ _ (λ _. after_value (review_key_of c t a.parameters) _ (λ key _.
            after_refusal _ _ (λ _. after_refusal _ _ (λ _.
              after_find (route_in t.kind cat.roles) _ (λ role _.
                Rule-announce rule w cat "TEMPLATE_TASK_INSTANTIATED" a.task _ (
                  rule.add (new_task w.now a t role key) c
                    (absent (find_row (is_task a.task) c.tasks) is_new) refl refl h)))))))))

  pub Keeps-claim : (a : ClaimArgs) (c : Control) → Q c → Ensures R (claim w cat a c)
  unfolding claim claim_task find_task new_claim
  Keeps-claim a c h = after_value (each normalize_path a.paths) _ (λ paths _.
      after_refusal _ _ (λ _. after_value (ensure_catalog cat c) _ (λ _ _.
        after_value (require_active c) _ (λ _ _. after_find (find_task a.task c) _ (λ r found.
          after_refusal _ _ (λ is_ready. after_value (refuse_stale c a r) _ (λ _ _.
            after_refusal _ _ (λ _. after_value (refuse_conflicts paths c.claims) _ (λ _ apart.
              after_value (check_stack w.files c a) _ (λ _ _. Ensures-ok _ (
                Rule-event rule w cat "TASK_CLAIMED" (some a.task) _ (
                  rule.edit a.task (claimed_row w a paths) r _ found
                    (Change-claimed w a paths r is_ready) (claim_put a paths c apart h)))))))))))))
    where
      claim_put :
          (a : ClaimArgs) (paths : List String) (c : Control)
          → refuse_conflicts paths c.claims ≡ ok tt
          → Q c
          → Q (record c { claims = put_claim (new_claim w a paths) c.claims })
      claim_put a paths c apart h = rule.put (new_claim w a paths) c apart h
