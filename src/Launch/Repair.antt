-- ===== src/Launch/Repair.antt =====
-- ci/control/orchestration_control.py: `block`, `unblock`, `promote`, `rewire`, `retire`.
use voice_pod_dispatcher.Prelude.{
  String, str_eq, true, not, ◌&&◌, ◌||◌, Option, none, some, List, [], ◌∷◌, if◌then◌else◌, is_among,
  truthy, all,
}
use text.Mathlib.Text.{starts_with}
use voice_pod_dispatcher.Launch.Check.{Check, ok, ◌>>=◌, ◌>>◌, refuse_if, needed}
use voice_pod_dispatcher.Launch.Schema.{
  TaskState, planned, waiting_dependency, ready, verified, integrated, repair_required, blocked,
  invalid_evidence, cancelled, same_state, state_in, finished_states, unstarted, accepted,
  is_integrated, Evidence, Task, Control, Catalog,
}
use voice_pod_dispatcher.Launch.World.{Files, World}
use voice_pod_dispatcher.Launch.ReviewGate.{is_empty, distinct}
use voice_pod_dispatcher.Launch.Journal.{write_event}
use voice_pod_dispatcher.Launch.Acceptance.{enforce_review_transition}
use voice_pod_dispatcher.Launch.Rows.{
  find_task, get_task, edit_task, release_all, evidence_of, all_evidence, ensure_catalog, announce,
  is_running,
}
use voice_pod_dispatcher.Launch.Work.{is_known}

abbrev pub blocked_row : World → (class reason : String) → Task → Task
blocked_row w class reason r = record r {
  state = blocked;
  blocker = some (record { class = class; reason = some reason });
  updated_at = w.now;
}

unfoldable pub block :
    World → Catalog → (i class reason evidence : String) → Control → Check Control
unfolding ensure_catalog find_task evidence_of edit_task write_event
block w cat i class reason evidence c = do
  ensure_catalog cat c
  r ← get_task i c
  refuse_if (is_running r)
  refuse_if (state_in r.state finished_states && not (same_state r.state blocked))
  _ ← evidence_of w.files evidence
  ok (write_event w "TASK_BLOCKED" (some i) (edit_task i (blocked_row w class reason) c))

abbrev pub unblocked_row : World → Task → Task
unblocked_row w r = record r { state = planned; blocker = none; updated_at = w.now }

unfoldable pub unblock : World → Catalog → (i evidence : String) → Control → Check Control
unfolding ensure_catalog find_task evidence_of edit_task announce
unblock w cat i evidence c = do
  ensure_catalog cat c
  r ← get_task i c
  refuse_if (not (same_state r.state blocked))
  _ ← evidence_of w.files evidence
  announce w cat "TASK_UNBLOCKED" i (edit_task i (unblocked_row w) c)

-- refuse_autofix_output, with --repo
unfoldable pub refuse_autofix : Files → (output_sha : String) → Option String → Check (Unit {0})
refuse_autofix files sha repo = if not (truthy repo) || str_eq sha "" then ok tt else (do
  repository ← needed repo
  subject ← needed (files.commit_subject repository sha)
  refuse_if (starts_with subject "autofix:" && not (files.is_safe_subject subject)))

-- A supporting task was accepted, and others may build on it.
unfoldable pub check_support : Control → List String → Check (Unit {0})
check_support c [] = ok tt
check_support c (i ∷ is) = do
  support ← needed (find_task i c)
  refuse_if (not (state_in support.state accepted) || not support.unlocks_dependents)
  check_support c is

pub record PromoteArgs : Type 0 where
  pub task : String
  pub supporting : List String
  pub output_sha : String
  pub tree_sha : String
  pub evidence : List String
  pub verdict : Option String
  pub repo : Option String

unfoldable pub promoted_row : World → PromoteArgs → List Evidence → Task → Task
promoted_row w a evidence r = record r {
  state = integrated;
  unlocks_dependents = true;
  output_sha = some a.output_sha;
  tree_sha = some a.tree_sha;
  evidence = evidence;
  blocker = none;
  updated_at = w.now;
}

unfoldable pub promote : World → Catalog → PromoteArgs → Control → Check Control
unfolding all_evidence ensure_catalog find_task check_support refuse_autofix
    enforce_review_transition edit_task promoted_row announce
promote w cat a c = do
  evidence ← all_evidence w.files a.evidence
  refuse_if (is_empty evidence)
  ensure_catalog cat c
  r ← get_task a.task c
  refuse_if (not (state_in r.state (verified ∷ repair_required ∷ [])))
  refuse_if (same_state r.state repair_required && is_empty a.supporting)
  check_support c a.supporting
  refuse_autofix w.files a.output_sha a.repo
  reviewed ← enforce_review_transition w cat c r is_integrated a.verdict
  announce w cat "TASK_PROMOTED_TO_INTEGRATED" a.task
      (edit_task a.task (λ _. promoted_row w a evidence reviewed) c)

abbrev pub rewired_row : World → List String → Task → Task
rewired_row w deps r = record r { depends_on = deps; rewired = true; updated_at = w.now }

unfoldable pub rewire : World → Catalog → (i : String) → List String → Control → Check Control
unfolding ensure_catalog find_task distinct edit_task announce
rewire w cat i depends_on c = do
  ensure_catalog cat c
  r ← needed (find_task i c)
  refuse_if (not (state_in r.state unstarted))
  refuse_if (not (all (is_known c) (distinct depends_on [])))
  refuse_if (is_among i (distinct depends_on []))
  announce w cat "TASK_DEPENDENCIES_REWIRED" i
      (edit_task i (rewired_row w (distinct depends_on [])) c)

-- RETIRABLE_STATES
abbrev pub retirable : List TaskState
retirable = planned ∷ waiting_dependency ∷ ready ∷ repair_required ∷ blocked ∷ invalid_evidence ∷ []

unfoldable pub check_closers : Control → List String → Check (Unit {0})
check_closers c [] = ok tt
check_closers c (i ∷ is) = do
  closer ← needed (find_task i c)
  refuse_if (not (state_in closer.state accepted))
  check_closers c is

abbrev pub retired_row : World → (reason : String) → Task → Task
retired_row w reason r = record r {
  state = cancelled;
  blocker = some (record { class = "RETIRED"; reason = some reason });
  updated_at = w.now;
}

unfoldable pub retire :
    World
    → Catalog
    → (i reason : String) → (closers evidence : List String) → Control
    → Check Control
unfolding ensure_catalog find_task distinct check_closers edit_task release_all write_event
retire w cat i reason closers evidence c = do
  ensure_catalog cat c
  r ← needed (find_task i c)
  refuse_if (not (state_in r.state retirable))
  check_closers c (distinct closers [])
  refuse_if (is_empty closers)
  refuse_if (not (all w.files.exists evidence))
  ok (write_event w "TASK_RETIRED" (some i) (release_all i (edit_task i (retired_row w reason) c)))
