-- ===== src/Launch/Rows.antt =====
-- ci/control/orchestration_control.py: what the commands write into the rows of tasks and claims.
use voice_pod_dispatcher.Prelude.{
  String, str_eq, Bool, false, ◌&&◌, Option, some, List, [], ◌∷◌, if◌then◌else◌, find_row,
  update_row, update_where,
}
use voice_pod_dispatcher.Launch.Check.{Check, ok, err, os_error, at_key, refuse_if, each}
use voice_pod_dispatcher.Launch.Schema.{
  state_in, active_states, Evidence, Task, Claim, Control, Catalog,
}
use voice_pod_dispatcher.Launch.World.{Files, World}
use voice_pod_dispatcher.Launch.ReviewGate.{is_task}
use voice_pod_dispatcher.Launch.Journal.{new_event, write_event}
use voice_pod_dispatcher.Launch.Readiness.{recompute_readiness, catalog_differs}

unfoldable pub find_task : String → Control → Option Task
find_task i c = find_row (is_task i) c.tasks

-- state["tasks"][i]
abbrev pub get_task : String → Control → Check Task
get_task i c = at_key (find_task i c)

unfoldable pub edit_task : String → (Task → Task) → Control → Control
edit_task i f c = record c { tasks = update_row (is_task i) f c.tasks }

abbrev pub is_claim : String → Claim → Bool
is_claim i k = str_eq k.claim_id i

-- state["claims"][claim_id] = …
unfoldable pub put_claim : Claim → List Claim → List Claim
put_claim k [] = k ∷ []
put_claim k (x ∷ xs) = if is_claim k.claim_id x then k ∷ xs else x ∷ put_claim k xs

abbrev pub released : Claim → Claim
released k = record k { is_active = false }

unfoldable pub release_claim : String → Control → Control
release_claim i c = record c { claims = update_row (is_claim i) released c.claims }

abbrev pub held_for : String → Claim → Bool
held_for i k = str_eq k.task_id i && k.is_active

-- The loop over the claims of a task that is retired or invalidated.
unfoldable pub release_all : String → Control → Control
release_all i c = record c { claims = update_where (held_for i) released c.claims }

abbrev pub is_running : Task → Bool
is_running r = state_in r.state active_states

-- {"path": …, "sha256": sha256_file(…)}
unfoldable pub evidence_of : Files → String → Check Evidence
evidence_of files path =
    if files.exists path
    then ok (record { path = path; sha256 = files.sha256 path })
    else err os_error

unfoldable pub all_evidence : Files → List String → Check (List Evidence)
unfolding evidence_of each
all_evidence files paths = each (evidence_of files) paths

unfoldable pub ensure_catalog : Catalog → Control → Check (Unit {0})
unfolding catalog_differs
ensure_catalog cat c = refuse_if (catalog_differs cat c)

-- The event of a command, and the readiness that follows from what it wrote.
unfoldable pub announce : World → Catalog → (type i : String) → Control → Check Control
unfolding new_event write_event recompute_readiness
announce w cat type i c =
    recompute_readiness w cat (some (new_event w type (some i) c)) (write_event w type (some i) c)
