-- ===== src/Launch/Claiming.antt =====
-- ci/control/orchestration_control.py: `claim`.
use voice_pod_dispatcher.Prelude.{
  String, str_eq, Bool, true, false, not, ◌&&◌, ◌||◌, Option, none, some, List, [], ◌∷◌,
  if◌then◌else◌, concat, is_some, truthy, same_text,
}
use voice_pod_dispatcher.Gate.Words.{lower}
use voice_pod_dispatcher.Launch.Check.{Check, ok, ◌>>=◌, ◌>>◌, refuse_if, at_key, needed, each}
use voice_pod_dispatcher.Launch.Schema.{
  ready, claimed, same_state, active, Task, Claim, Control, Catalog,
}
use voice_pod_dispatcher.Launch.World.{Files, World}
use voice_pod_dispatcher.Launch.Paths.{normalize_path, paths_conflict}
use voice_pod_dispatcher.Launch.ReviewGate.{is_empty}
use voice_pod_dispatcher.Launch.Journal.{write_event}
use voice_pod_dispatcher.Launch.Rows.{find_task, get_task, edit_task, put_claim, ensure_catalog}

pub record ClaimArgs : Type 0 where
  pub task : String
  pub chief : String
  pub attempt_id : String
  pub claim_id : Option String
  pub base_sha : String
  pub paths : List String
  pub transferred : Bool
  pub stacked_base : Option String
  -- --stacked-on, split at its commas
  pub stacked_on : List String

unfoldable pub require_active : Control → Check (Unit {0})
require_active c = refuse_if (elim c.phase [ active ↦ false | _ ↦ true ])

-- any(paths_conflict(left, right) for right in rights)
unfoldable pub conflicts_with : String → List String → Check Bool
conflicts_with left [] = ok false
conflicts_with left (right ∷ rights) = do
  b ← paths_conflict left right
  if b then ok true else conflicts_with left rights

unfoldable pub any_conflict : (lefts rights : List String) → Check Bool
unfolding conflicts_with
any_conflict [] rights = ok false
any_conflict (left ∷ lefts) rights = do
  b ← conflicts_with left rights
  if b then ok true else any_conflict lefts rights

unfoldable pub refuse_conflict : List String → Claim → Check (Unit {0})
unfolding any_conflict
refuse_conflict paths k = if k.is_active then (any_conflict paths k.paths >>= refuse_if) else ok tt

unfoldable pub refuse_conflicts : List String → List Claim → Check (Unit {0})
unfolding refuse_conflict
refuse_conflicts paths [] = ok tt
refuse_conflicts paths (k ∷ ks) = do refuse_conflict paths k; refuse_conflicts paths ks

-- A task with a review key is claimed for the registered candidate.
unfoldable pub refuse_stale : Control → ClaimArgs → Task → Check (Unit {0})
refuse_stale c a r = elim r.review_key [
  | none ↦ ok tt
  | some _ ↦ do
    sha ← at_key r.parameters.candidate_sha
    refuse_if (
        not (same_text (some sha) c.candidate.sha)
        || not (same_text (some a.base_sha) c.candidate.sha))
]

unfoldable pub refuse_unbuilt : Control → List String → Check (Unit {0})
refuse_unbuilt c [] = ok tt
refuse_unbuilt c (dep ∷ deps) = do
  row ← needed (find_task dep c)
  refuse_if (not (is_some row.output_sha))
  refuse_unbuilt c deps

abbrev pub differ : Bool → Bool → Bool
differ true b = not b
differ false b = b

unfoldable pub check_stack : Files → Control → ClaimArgs → Check (Unit {0})
unfolding refuse_unbuilt
check_stack files c a = do
  refuse_if (
      truthy a.stacked_base
      && not (elim a.stacked_base [ none ↦ true | some s ↦ files.is_commit_sha s ]))
  refuse_if (truthy a.stacked_base && not (same_text a.stacked_base (some a.base_sha)))
  refuse_if (differ (truthy a.stacked_base) (not (is_empty a.stacked_on)))
  refuse_unbuilt c a.stacked_on

-- args.claim_id or f"claim-{args.task.lower()}-{uuid}"
unfoldable pub claim_id_of : World → ClaimArgs → String
claim_id_of w a = elim a.claim_id [
  | none ↦ concat ("claim-" ∷ lower a.task ∷ "-" ∷ w.claim_uuid ∷ [])
  | some i ↦ if str_eq i "" then concat ("claim-" ∷ lower a.task ∷ "-" ∷ w.claim_uuid ∷ []) else i
]

unfoldable pub new_claim : World → ClaimArgs → List String → Claim
unfolding claim_id_of
new_claim w a paths = record {
  claim_id = claim_id_of w a;
  task_id = a.task;
  chief = a.chief;
  attempt_id = a.attempt_id;
  paths = paths;
  is_active = true;
}

unfoldable pub claimed_row : World → ClaimArgs → List String → Task → Task
unfolding claim_id_of
claimed_row w a paths r = record r {
  state = claimed;
  attempt_id = some a.attempt_id;
  claim_id = some (claim_id_of w a);
  owned_paths = paths;
  base_sha = some a.base_sha;
  stacked_on = a.stacked_on;
  updated_at = w.now;
}

unfoldable pub claim_task : World → ClaimArgs → List String → Control → Control
unfolding new_claim claimed_row put_claim edit_task
claim_task w a paths c =
    edit_task a.task (claimed_row w a paths)
      (record c { claims = put_claim (new_claim w a paths) c.claims })

unfoldable pub claim : World → Catalog → ClaimArgs → Control → Check Control
unfolding ensure_catalog require_active find_task refuse_stale refuse_conflicts check_stack
    claim_task write_event each normalize_path
claim w cat a c = do
  paths ← each normalize_path a.paths
  refuse_if (is_empty paths)
  ensure_catalog cat c
  require_active c
  r ← get_task a.task c
  refuse_if (not (same_state r.state ready))
  refuse_stale c a r
  refuse_if (not (str_eq r.chief a.chief) && not a.transferred)
  refuse_conflicts paths c.claims
  check_stack w.files c a
  ok (write_event w "TASK_CLAIMED" (some a.task) (claim_task w a paths c))
