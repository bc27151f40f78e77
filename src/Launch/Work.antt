-- ===== src/Launch/Work.antt =====
-- ci/control/orchestration_control.py: `instantiate`, `start`, `complete`, `adopt`.
use voice_pod_dispatcher.Prelude.{
  ℕ, String, str_eq, Bool, true, false, not, ◌&&◌, ◌||◌, Option, none, some, List, [], ◌∷◌, ◌++◌,
  map, if◌then◌else◌, is_among, is_some, truthy, same_text, find_row, all, any,
}
use voice_pod_dispatcher.Launch.Check.{Check, ok, ◌>>=◌, ◌>>◌, refuse_if, at_key, needed}
use voice_pod_dispatcher.Launch.Schema.{
  TaskState, planned, claimed, running, repair_required, blocked, invalid_evidence, cancelled,
  same_state, state_in, active_states, unstarted, accepted, Outcome, outcome_state, prepared,
  Evidence, Route, on_task, Parameters, Task, Candidate, Control, Template, Catalog,
}
use voice_pod_dispatcher.Launch.World.{World}
use voice_pod_dispatcher.Launch.ReviewGate.{is_task, is_empty, route_in, is_text}
use voice_pod_dispatcher.Launch.Journal.{write_event}
use voice_pod_dispatcher.Launch.Readiness.{task_contract}
use voice_pod_dispatcher.Launch.Acceptance.{enforce_review_transition}
use voice_pod_dispatcher.Launch.Rows.{
  find_task, get_task, edit_task, is_claim, release_claim, all_evidence, ensure_catalog, announce,
}
use voice_pod_dispatcher.Launch.Claiming.{require_active}

abbrev pub is_template : String → Template → Bool
is_template i t = str_eq t.id i

abbrev pub same_key : List String → List String → Bool
same_key [] [] = true
same_key (a ∷ as') (b ∷ bs) = str_eq a b && same_key as' bs
same_key _ _ = false

-- A review with the same key that was not withdrawn.
unfoldable pub is_duplicate : List String → Task → Bool
is_duplicate key r = elim r.review_key [
  | none ↦ false
  | some k ↦ same_key k key && not (state_in r.state (invalid_evidence ∷ cancelled ∷ []))
]

abbrev pub texts : Option String → List String
texts none = "null" ∷ []
texts (some s) = s ∷ []

-- key_parts; the code keeps the sha256 of their JSON.
unfoldable pub key_parts : String → Candidate → Parameters → List String
key_parts template candidate p =
    template ∷ texts candidate.sha
    ++ texts candidate.tree
    ++ texts p.scope
    ++ (if truthy p.union_sha then texts p.union_sha else [])

unfoldable pub review_key_of : Control → Template → Parameters → Check (Option (List String))
unfolding key_parts is_duplicate
review_key_of c t p =
    if is_among t.kind ("junior" ∷ "security" ∷ [])
    then (do
      refuse_if (
          not (truthy c.candidate.sha)
          || not (same_text p.candidate_sha c.candidate.sha)
          || not (same_text p.tree_sha c.candidate.tree))
      refuse_if (any (is_duplicate (key_parts t.id c.candidate p)) c.tasks)
      ok (some (key_parts t.id c.candidate p)))
    else ok none

abbrev pub is_known : Control → String → Bool
is_known c i = is_some (find_row (is_task i) c.tasks)

pub record InstantiateArgs : Type 0 where
  pub template : String
  pub task : String
  pub parent_contract : String
  pub chief : String
  pub depends_on : List String
  pub parameters : Parameters

unfoldable pub new_task : ℕ → InstantiateArgs → Template → Route → Option (List String) → Task
new_task now a t role key = record {
  task_id = a.task;
  chief = a.chief;
  kind = t.kind;
  role = role;
  dynamic = true;
  parameters = a.parameters;
  acceptance = t.acceptance;
  review_key = key;
  state = planned;
  depends_on = a.depends_on;
  rewired = false;
  waiting_for = map on_task a.depends_on;
  unlocks_dependents = false;
  is_accepted = false;
  attempt_id = none;
  child_id = none;
  claim_id = none;
  owned_paths = [];
  base_sha = none;
  output_sha = none;
  tree_sha = none;
  evidence = [];
  blocker = none;
  reviews = [];
  stacked_on = [];
  updated_at = now;
}

unfoldable pub add_task : Task → Control → Control
add_task r c = record c { tasks = c.tasks ++ r ∷ [] }

unfoldable pub instantiate : World → Catalog → InstantiateArgs → Control → Check Control
unfolding ensure_catalog review_key_of new_task add_task announce route_in
instantiate w cat a c = do
  ensure_catalog cat c
  refuse_if (is_known c a.task)
  t ← needed (find_row (is_template a.template) cat.templates)
  refuse_if (not (all (λ k. is_among k a.parameters.keys) t.required_parameters))
  key ← review_key_of c t a.parameters
  refuse_if (not (all (is_known c) a.depends_on))
  refuse_if (not (is_known c a.parent_contract))
  role ← at_key (route_in t.kind cat.roles)
  announce w cat "TEMPLATE_TASK_INSTANTIATED" a.task (add_task (new_task w.now a t role key) c)

pub record StartArgs : Type 0 where
  pub task : String
  pub attempt_id : String
  pub child_id : String
  pub resolved_model : String
  pub resolved_effort : String
  pub agent_type : Option String

-- ROUTE_BINDINGS: the model, the effort and the type of agent of a route that the catalog names.
unfoldable pub route_bindings : List (String × Route × String)
route_bindings =
    (
      "BIND_APPROVED_GO_MUSE_ROUTE",
      record { model = "go2/muse-spark-1.3-contributor"; effort = "xhigh" },
      "router_go2_muse_spark_1_3_contributor",
    )
    ∷ (
      "BIND_APPROVED_GO_DEEPSEEK_ROUTE",
      record { model = "go2/deepseek-v4.1-flash"; effort = "high" },
      "router_go2_deepseek_v4_1_flash",
    )
    ∷ []

unfoldable pub bound_route : Route → List (String × Route × String) → Route × Option String
bound_route route [] = (route, none)
bound_route route ((name, bound, agent) ∷ rest) =
    if str_eq route.model name then (bound, some agent) else bound_route route rest

unfoldable pub route_matches : Route → StartArgs → Bool
unfolding route_bindings bound_route
route_matches route a =
    let (required, agent) = bound_route route route_bindings in
    str_eq a.resolved_model required.model
    && str_eq a.resolved_effort required.effort
    && (not (truthy agent) || same_text a.agent_type agent)

abbrev pub started : World → StartArgs → Task → Task
started w a r = record r { state = running; child_id = some a.child_id; updated_at = w.now }

unfoldable pub start : World → Catalog → StartArgs → Control → Check Control
unfolding ensure_catalog require_active find_task task_contract route_matches edit_task write_event
start w cat a c = do
  ensure_catalog cat c
  require_active c
  r ← get_task a.task c
  refuse_if (not (same_state r.state claimed) || not (is_text r.attempt_id a.attempt_id))
  refuse_if (not (route_matches (task_contract cat r).role a))
  ok (write_event w "TASK_STARTED" (some a.task) (edit_task a.task (started w a) c))

pub record ResultArgs : Type 0 where
  pub task : String
  pub attempt_id : String
  pub outcome : Outcome
  pub unlock_dependents : Bool
  pub output_sha : Option String
  pub tree_sha : Option String
  pub evidence : List String
  pub reason : Option String
  pub verdict : Option String

abbrev pub needs_reason : List TaskState
needs_reason = blocked ∷ repair_required ∷ invalid_evidence ∷ []

-- The row of a result; `r` is the row with its review.
unfoldable pub with_result : World → ResultArgs → List Evidence → Task → Task
with_result w a evidence r = record r {
  state = outcome_state a.outcome;
  unlocks_dependents = a.unlock_dependents;
  output_sha = a.output_sha;
  tree_sha = a.tree_sha;
  evidence = evidence;
  blocker =
      if state_in (outcome_state a.outcome) needs_reason
      then some (record { class = ""; reason = a.reason })
      else none;
  updated_at = w.now;
}

-- state["claims"][claim_id] of the row, if it has one.
unfoldable pub release_own : Task → Control → Check Control
unfolding release_claim
release_own r c =
    if truthy r.claim_id
    then (do
      i ← needed r.claim_id
      _ ← at_key (find_row (is_claim i) c.claims)
      ok (release_claim i c))
    else ok c

unfoldable pub complete : World → Catalog → ResultArgs → Control → Check Control
unfolding all_evidence ensure_catalog find_task enforce_review_transition edit_task with_result
    release_own announce
complete w cat a c = do
  evidence ← all_evidence w.files a.evidence
  ensure_catalog cat c
  r ← get_task a.task c
  refuse_if (not (state_in r.state active_states) || not (is_text r.attempt_id a.attempt_id))
  refuse_if (a.unlock_dependents && not (state_in (outcome_state a.outcome) accepted))
  refuse_if (a.unlock_dependents && is_empty evidence)
  reviewed ← enforce_review_transition w cat c r a.outcome a.verdict
  c' ← release_own r (edit_task a.task (λ _. with_result w a evidence reviewed) c)
  announce w cat "TASK_COMPLETED" a.task c'

unfoldable pub adopt : World → Catalog → ResultArgs → Control → Check Control
unfolding all_evidence ensure_catalog find_task enforce_review_transition edit_task with_result
    announce
adopt w cat a c = do
  evidence ← all_evidence w.files a.evidence
  refuse_if (is_empty evidence)
  ensure_catalog cat c
  refuse_if (elim c.phase [ prepared ↦ false | _ ↦ true ])
  r ← get_task a.task c
  refuse_if (not (state_in r.state unstarted))
  refuse_if (a.unlock_dependents && not (state_in (outcome_state a.outcome) accepted))
  reviewed ← enforce_review_transition w cat c r a.outcome a.verdict
  announce w cat "PRESERVED_RESULT_ADOPTED" a.task
      (edit_task a.task (λ _. with_result w a evidence reviewed) c)
