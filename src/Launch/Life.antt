-- ===== src/Launch/Life.antt =====
-- The life of a task, as a table that no command reads: which states may follow which
-- (ci/control/orchestration_control.py).
use voice_pod_dispatcher.Prelude.{◌≡◌, Bool, true, ◌||◌, List, [], ◌∷◌}
use voice_pod_dispatcher.Launch.Schema.{
  TaskState, planned, waiting_dependency, ready, claimed, dispatched, running, result_received,
  verified, integrated, repair_required, blocked, invalid_evidence, cancelled, same_state, state_in,
  accepted, Task,
}

-- What a result may be.
abbrev pub results : List TaskState
results = verified ∷ integrated ∷ repair_required ∷ blocked ∷ invalid_evidence ∷ []

-- From a state that was not started: readiness, a claim, a blocker, retirement, or the adoption of a
-- result that is at hand.
abbrev from_unstarted : List TaskState
from_unstarted = planned ∷ waiting_dependency ∷ ready ∷ cancelled ∷ results

abbrev pub followers : TaskState → List TaskState
followers planned = from_unstarted
followers waiting_dependency = from_unstarted
followers ready = claimed ∷ from_unstarted
followers claimed = running ∷ results
followers dispatched = results
followers running = results
followers result_received = results
followers verified = integrated ∷ invalid_evidence ∷ []
followers integrated = []
followers repair_required = integrated ∷ invalid_evidence ∷ cancelled ∷ []
followers blocked = planned ∷ invalid_evidence ∷ cancelled ∷ []
followers invalid_evidence = cancelled ∷ []
followers cancelled = []

unfoldable pub may_follow : TaskState → TaskState → Bool
may_follow s t = same_state s t || state_in t (followers s)

-- What a command may do to a row: it keeps the id, moves along the table, and others may build on
-- the task only if it was accepted.
abbrev pub Sound : Task → Type 0
Sound r = r.unlocks_dependents ≡ true → state_in r.state accepted ≡ true

pub record Change (r r' : Task) : Type 0 where
  pub same_id : r'.task_id ≡ r.task_id
  pub legal : may_follow r.state r'.state ≡ true
  pub sound : Sound r → Sound r'

pub data Reaches (s : TaskState) : TaskState → Type 0 where
  here : Reaches s s
  next : {t u : TaskState} → Reaches s t → may_follow t u ≡ true → Reaches s u
