-- ===== src/Launch/Acceptance.antt =====
-- ci/control/orchestration_control.py: the evidence of a review that an accepted result needs.
use voice_pod_dispatcher.Prelude.{
  String, str_eq, not, ◌||◌, Option, none, some, List, [], ◌∷◌, if◌then◌else◌, is_among, truthy,
}
use voice_pod_dispatcher.Launch.Check.{Check, ok, ◌>>=◌, ◌>>◌, needed, refuse_if}
use voice_pod_dispatcher.Launch.Schema.{
  Outcome, outcome_state, accepted, state_in, ReviewRecord, Task, Control, Catalog,
}
use voice_pod_dispatcher.Launch.World.{World}
use voice_pod_dispatcher.Launch.ReviewGate.{is_role, is_empty, validate}
use voice_pod_dispatcher.Launch.Readiness.{
  has_role, current_review, acceptance_tasks, dependency_status, task_contract,
}
use voice_pod_dispatcher.Launch.Rows.{get_task}

-- row["reviews"][role] = record
unfoldable pub put_review : ReviewRecord → List ReviewRecord → List ReviewRecord
put_review v [] = v ∷ []
put_review v (x ∷ xs) = if has_role v.role x then v ∷ xs else x ∷ put_review v xs

-- The role whose verdict a task needs.
unfoldable pub role_needed : Task → Option String
unfolding is_role
role_needed r =
    if str_eq r.task_id "L35"
    then some "junior"
    else if str_eq r.task_id "L42" || str_eq r.task_id "L44"
    then some "final_review"
    else if is_role r.kind
    then some r.kind
    else none

-- L42 and L44 need the current review of L35.
unfoldable pub consolidated : World → Control → Task → Check (Unit {0})
unfolding current_review
consolidated w c r =
    if str_eq r.task_id "L42" || str_eq r.task_id "L44"
    then (do
      junior ← get_task "L35" c
      refuse_if (not (current_review w.files c.candidate junior "junior")))
    else ok tt

unfoldable pub dependencies_met : World → Catalog → Control → Task → Check (Unit {0})
unfolding dependency_status task_contract
dependencies_met w cat c r =
    if is_among r.task_id acceptance_tasks
    then (do
      missing ← dependency_status w.files c.candidate c.tasks (task_contract cat r)
      refuse_if (not (is_empty missing)))
    else ok tt

-- The row with its review, of a task that needs the verdict of a role.
unfoldable pub review_as :
    World → Catalog → Control → Task → (verdict : Option String) → (role : String) → Check Task
unfolding validate consolidated dependencies_met put_review
review_as w cat c r verdict role = do
  refuse_if (not (truthy verdict))
  packet ← needed verdict
  v ← validate w c cat packet r.task_id role
  consolidated w c r
  dependencies_met w cat c r
  ok (record r { reviews = put_review v r.reviews })

unfoldable pub enforce_review_transition :
    World → Catalog → Control → Task → Outcome → (verdict : Option String) → Check Task
unfolding role_needed review_as
enforce_review_transition w cat c r outcome verdict =
    if state_in (outcome_state outcome) accepted
    then elim (role_needed r) [ none ↦ ok r | some role ↦ review_as w cat c r verdict role ]
    else ok r
