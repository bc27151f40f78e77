-- ===== src/Launch/Verify.antt =====
-- ci/control/orchestration_control.py: `verify_state`, and `reconcile`, which asks it first.
use voice_pod_dispatcher.Prelude.{
  String, Bool, not, ◌&&◌, ◌||◌, none, some, List, [], ◌∷◌, ◌++◌, if◌then◌else◌, is_some, find_row,
  all,
}
use voice_pod_dispatcher.Launch.Check.{Check, ok, ◌>>=◌, ◌>>◌, refuse_if}
use voice_pod_dispatcher.Launch.Schema.{
  ready, same_state, state_in, accepted, Task, Claim, Control, Contract, Catalog,
}
use voice_pod_dispatcher.Launch.World.{World}
use voice_pod_dispatcher.Launch.ReviewGate.{is_task, is_contract, is_empty}
use voice_pod_dispatcher.Launch.Readiness.{dependency_status, task_contract, recompute_readiness}
use voice_pod_dispatcher.Launch.Journal.{new_event, write_event}
use voice_pod_dispatcher.Launch.Claiming.{any_conflict}
use voice_pod_dispatcher.Launch.Rows.{ensure_catalog}

-- The errors that are reported.
pub data Problem : Type 0 where
  missing_contracts : Problem
  unknown_task : (task_id : String) → Problem
  claims_conflict : (left right : String) → Problem
  not_ready : (task_id : String) → Problem
  wrongly_unlocks : (task_id : String) → Problem

abbrev pub has_row : List Task → Contract → Bool
has_row tasks k = is_some (find_row (is_task k.id) tasks)

unfoldable pub unknown_tasks : Catalog → List Task → List Problem
unknown_tasks cat [] = []
unknown_tasks cat (r ∷ rs) =
    let rest = unknown_tasks cat rs in
    if is_some (find_row (is_contract r.task_id) cat.contracts) || r.dynamic
    then rest
    else unknown_task r.task_id ∷ rest

unfoldable pub active_claims : List Claim → List Claim
active_claims [] = []
active_claims (k ∷ ks) = let rest = active_claims ks in if k.is_active then k ∷ rest else rest

unfoldable pub clashes_of : Claim → List Claim → Check (List Problem)
unfolding any_conflict
clashes_of left [] = ok []
clashes_of left (right ∷ ks) = do
  b ← any_conflict left.paths right.paths
  rest ← clashes_of left ks
  ok (if b then claims_conflict left.claim_id right.claim_id ∷ rest else rest)

unfoldable pub claim_problems : List Claim → Check (List Problem)
unfolding clashes_of
claim_problems [] = ok []
claim_problems (k ∷ ks) = do here ← clashes_of k ks; rest ← claim_problems ks; ok (here ++ rest)

unfoldable pub unlock_problem : Task → List Problem
unlock_problem r =
    if r.unlocks_dependents && not (state_in r.state accepted)
    then wrongly_unlocks r.task_id ∷ []
    else []

unfoldable pub row_problems : World → Catalog → Control → Task → Check (List Problem)
unfolding dependency_status task_contract unlock_problem
row_problems w cat c r =
    if same_state r.state ready
    then (do
      waiting ← dependency_status w.files c.candidate c.tasks (task_contract cat r)
      ok ((if is_empty waiting then [] else not_ready r.task_id ∷ []) ++ unlock_problem r))
    else ok (unlock_problem r)

unfoldable pub task_problems : World → Catalog → Control → List Task → Check (List Problem)
unfolding row_problems
task_problems w cat c [] = ok []
task_problems w cat c (r ∷ rs) = do
  here ← row_problems w cat c r
  rest ← task_problems w cat c rs
  ok (here ++ rest)

unfoldable pub contract_problems : Catalog → Control → List Problem
contract_problems cat c = if all (has_row c.tasks) cat.contracts then [] else missing_contracts ∷ []

unfoldable pub verify_state : World → Catalog → Control → Check (List Problem)
unfolding contract_problems unknown_tasks active_claims claim_problems task_problems
verify_state w cat c = do
  clashes ← claim_problems (active_claims c.claims)
  rows ← task_problems w cat c c.tasks
  ok (contract_problems cat c ++ unknown_tasks cat c.tasks ++ clashes ++ rows)

unfoldable pub reconcile : World → Catalog → Control → Check Control
unfolding ensure_catalog verify_state new_event write_event recompute_readiness
reconcile w cat c = do
  ensure_catalog cat c
  problems ← verify_state w cat c
  refuse_if (not (is_empty problems))
  recompute_readiness w cat (some (new_event w "STATE_RECONCILED" none c))
      (write_event w "STATE_RECONCILED" none c)
