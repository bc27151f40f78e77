-- ===== src/Launch/Contamination.antt =====
-- ci/control/orchestration_control.py: `invalidate`.
use text.Mathlib.Text.{starts_with}
use voice_pod_dispatcher.Prelude.{
  String, str_eq, Bool, false, not, ◌&&◌, ◌||◌, Option, none, some, List, [], ◌∷◌, ◌++◌,
  if◌then◌else◌, ltb, is_among, truthy, any,
}
use voice_pod_dispatcher.Launch.Check.{
  Check, ok, err, runtime_error, ◌>>=◌, ◌>>◌, refuse_if, needed,
}
use voice_pod_dispatcher.Launch.Schema.{
  TaskState, waiting_dependency, ready, verified, repair_required, blocked, invalid_evidence,
  same_state, state_in, active_states, finished_states, Task, Candidate, Control, Catalog,
}
use voice_pod_dispatcher.Launch.World.{Files, World}
use voice_pod_dispatcher.Launch.Journal.{write_event}
use voice_pod_dispatcher.Launch.Rows.{find_task, edit_task, release_all, ensure_catalog, is_running}

-- CONSUMED_STATES
abbrev pub consumed_states : List TaskState
consumed_states = waiting_dependency ∷ ready ∷ active_states ++ finished_states

abbrev pub consumes : String → Task → Bool
consumes i r = is_among i r.depends_on && state_in r.state consumed_states

-- A key of the evidence, which has to look like a commit.
unfoldable pub named_commit : Files → Option String → Check String
named_commit files none = err runtime_error
named_commit files (some sha) = if files.is_short_sha sha then ok sha else err runtime_error

-- One is an abbreviation of the other.
abbrev pub same_commit : String → String → Bool
same_commit a b = starts_with a b || starts_with b a

unfoldable pub registered_after : Candidate → Task → Bool
registered_after candidate r = truthy candidate.sha && ltb r.updated_at candidate.registered_at

-- contaminated_verified_check
unfoldable pub check_contaminated :
    Files → Control → (i reason evidence : String) → Task → Check (Unit {0})
unfolding named_commit registered_after
check_contaminated files c i reason evidence r = do
  refuse_if (any (consumes i) c.tasks)
  refuse_if (any (is_among i) files.union_members)
  refuse_if (not (starts_with reason "CONTAMINATED:"))
  ev ← needed (files.contamination evidence)
  output_sha ← named_commit files ev.output_sha
  contaminating ← named_commit files ev.contaminating_commit
  clean ← named_commit files ev.clean_commit
  refuse_if (not (truthy r.output_sha))
  recorded ← needed r.output_sha
  refuse_if (not (same_commit recorded output_sha))
  refuse_if (not (same_commit recorded contaminating))
  refuse_if (str_eq clean contaminating)
  refuse_if (not (same_state r.state verified) || r.is_accepted)
  refuse_if (registered_after c.candidate r)

-- INVALIDATABLE_STATES
abbrev pub invalidatable : List TaskState
invalidatable = repair_required ∷ blocked ∷ []

-- The class of the record, CONTAMINATED or INVALIDATED.
unfoldable pub class_of : Files → Control → (i reason evidence : String) → Task → Check String
unfolding check_contaminated
class_of files c i reason evidence r =
    if same_state r.state verified
    then (check_contaminated files c i reason evidence r >> ok "CONTAMINATED")
    else (refuse_if (not (state_in r.state invalidatable)) >> ok "INVALIDATED")

abbrev pub invalid_row : World → (class reason : String) → Task → Task
invalid_row w class reason r = record r {
  state = invalid_evidence;
  blocker = some (record { class = class; reason = some reason });
  unlocks_dependents = false;
  updated_at = w.now;
}

unfoldable pub invalidate : World → Catalog → (i reason evidence : String) → Control → Check Control
unfolding ensure_catalog find_task class_of edit_task release_all write_event
invalidate w cat i reason evidence c = do
  refuse_if (not (w.files.exists evidence))
  ensure_catalog cat c
  r ← needed (find_task i c)
  refuse_if (is_running r)
  class ← class_of w.files c i reason evidence r
  ok (
      write_event w "TASK_INVALIDATED" (some i)
        (release_all i (edit_task i (invalid_row w class reason) c)))
