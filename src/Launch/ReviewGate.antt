-- ===== src/Launch/ReviewGate.antt =====
-- ci/control/review_gate.py: the validation of a review packet against the candidate.
use voice_pod_dispatcher.Prelude.{
  String, str_eq, Bool, true, false, not, ◌&&◌, ◌||◌, Option, none, some, List, [], ◌∷◌, ◌++◌,
  if◌then◌else◌, is_among, same_text, truthy, is_some, find_row, all, any,
}
use voice_pod_dispatcher.Launch.Check.{Check, ok, ◌>>=◌, ◌>>◌, needed, readable, at_key, invalid_if}
use voice_pod_dispatcher.Launch.Schema.{
  Evidence, ReviewRecord, Route, Task, Chief, Candidate, Control, Contract, Catalog,
}
use voice_pod_dispatcher.Launch.World.{Coverage, ReviewPacket, TurnContext, Files, World}
use voice_pod_dispatcher.Launch.Sessions.{sessions_match, contexts_of, post_fork_contexts}

-- ROLES
unfoldable pub roles : List (String × Route)
roles =
    ("junior", record { model = "gpt-5.6-luna"; effort = "xhigh" })
    ∷ ("security", record { model = "gpt-5.6-sol"; effort = "high" })
    ∷ ("final_review", record { model = "gpt-5.6-sol"; effort = "high" })
    ∷ []

unfoldable pub route_in : String → List (String × Route) → Option Route
route_in role [] = none
route_in role ((name, route) ∷ rest) = if str_eq name role then some route else route_in role rest

unfoldable pub is_role : String → Bool
unfolding roles route_in
is_role kind = is_some (route_in kind roles)

unfoldable pub accepted_models : String → Route → List String
accepted_models role route =
    route.model ∷ (if str_eq role "final_review" then "gpt-5.6-sol-1m" ∷ [] else [])

abbrev pub is_task : String → Task → Bool
is_task i r = str_eq r.task_id i

abbrev pub is_contract : String → Contract → Bool
is_contract i c = str_eq c.id i

-- hashed
abbrev pub hashed : Files → Evidence → Check (Unit {0})
hashed files e = invalid_if (not (files.matches e))

unfoldable pub hashed_all : Files → List Evidence → Check (Unit {0})
hashed_all files [] = ok tt
hashed_all files (e ∷ es) = do hashed files e; hashed_all files es

abbrev pub is_text : Option String → String → Bool
is_text o s = same_text o (some s)

-- _union_subject, of a review whose packet names a union tip
unfoldable pub union_tip : Files → ReviewPacket → Candidate → String → Check Bool
union_tip files packet candidate tip = do
  invalid_if (not (is_text packet.candidate_sha tip))
  invalid_if (not (truthy candidate.repository))
  repository ← needed candidate.repository
  invalid_if (not (files.exists repository))
  sha ← needed candidate.sha
  invalid_if (not (files.descends repository sha tip))
  let tree = files.tree_of repository tip
  invalid_if (not (is_some tree) || not (same_text tree packet.tree_sha))
  ok true

unfoldable pub union_subject : Files → ReviewPacket → Candidate → String → Check Bool
unfolding union_tip
union_subject files packet candidate role =
    if str_eq role "final_review" || not (truthy packet.union_sha)
    then ok false
    else (needed packet.union_sha >>= union_tip files packet candidate)

-- The sessions that built something or that run a queue.
unfoldable pub is_builder : String → Task → Bool
unfolding is_role
is_builder session r = not (is_role r.kind) && is_text r.child_id session

unfoldable pub is_known_author : Control → String → Bool
unfolding is_builder
is_known_author c session =
    any (is_builder session) c.tasks || any (λ (h : Chief). is_text h.thread_id session) c.chiefs

abbrev pub has_route : String → Route → TurnContext → Bool
has_route model route t = is_text t.model model && is_text t.effort route.effort

-- The turns after the fork all used one accepted model, at the effort of the role.
unfoldable pub route_ok : String → Route → List TurnContext → Bool
unfolding accepted_models
route_ok role route [] = false
route_ok role route (t ∷ ts) = elim t.model [
  | none ↦ false
  | some model ↦ is_among model (accepted_models role route) && all (has_route model route) (t ∷ ts)
]

-- The first occurrence of each.
unfoldable pub distinct : List String → (seen : List String) → List String
distinct [] seen = []
distinct (s ∷ ss) seen = if is_among s seen then distinct ss seen else s ∷ distinct ss (s ∷ seen)

unfoldable pub criteria : Control → Catalog → String → Check (List String)
unfolding distinct
criteria c cat target = elim (find_row (is_contract target) cat.contracts) [
  | some contract ↦ ok (distinct (contract.verification ++ contract.acceptance) [])
  | none ↦ do r ← at_key (find_row (is_task target) c.tasks); ok r.acceptance
]

abbrev pub covers : String → String → Coverage → Bool
covers target criterion v = str_eq v.target target && str_eq v.criterion criterion

unfoldable pub is_covered : List Coverage → String → String → Bool
is_covered rows target criterion = elim (find_row (covers target criterion) rows) [
  | none ↦ false
  | some v ↦ str_eq v.result "PASS"
]

abbrev pub is_empty : {A : Type 0} → List A → Bool
is_empty [] = true
is_empty (_ ∷ _) = false

abbrev pub none_left : Option (List String) → Bool
none_left none = false
none_left (some xs) = is_empty xs

-- The reviewer, if the packet names one and authors that do not include it.
unfoldable pub independent_reviewer : ReviewPacket → Check String
independent_reviewer packet = do
  invalid_if (not (truthy packet.reviewer))
  reviewer ← needed packet.reviewer
  invalid_if (not (is_some packet.authors))
  authors ← needed packet.authors
  invalid_if (is_empty authors || is_among reviewer authors)
  ok reviewer

-- What the session log proves of the reviewer.
unfoldable pub check_session : Files → ReviewPacket → (role reviewer : String) → Check (Unit {0})
unfolding roles route_in sessions_match contexts_of post_fork_contexts route_ok
check_session files packet role reviewer = do
  route ← needed (route_in role roles)
  hashed files packet.runtime_log
  invalid_if (not (files.is_native_log packet.runtime_log.path))
  rows ← readable (files.session_log packet.runtime_log.path)
  invalid_if (not (sessions_match rows reviewer) || is_empty (contexts_of rows))
  invalid_if (not (route_ok role route (post_fork_contexts rows)))

-- The review task was dispatched to that session and is of that role.
unfoldable pub check_dispatch : Control → ReviewPacket → (role reviewer : String) → Check (Unit {0})
check_dispatch c packet role reviewer = do
  invalid_if (not (is_some packet.review_task_id))
  review_task_id ← needed packet.review_task_id
  invalid_if (not (is_some (find_row (is_task review_task_id) c.tasks)))
  review_task ← needed (find_row (is_task review_task_id) c.tasks)
  invalid_if (not (is_text review_task.child_id reviewer) || not (str_eq review_task.kind role))

-- What is asked of the packet before anything of the reviewer.
unfoldable pub check_subject : Files → Control → ReviewPacket → String → Check (Unit {0})
unfolding is_role union_subject
check_subject files c packet role = do
  invalid_if (not (is_role role) || not (is_text packet.role role))
  invalid_if (not (truthy c.candidate.sha))
  union ← union_subject files packet c.candidate role
  invalid_if (
      not union
      && not (
          same_text packet.candidate_sha c.candidate.sha
          && same_text packet.tree_sha c.candidate.tree))
  invalid_if (
      not (is_text packet.verdict "PASS" || is_text packet.verdict "ACCEPT")
      || not (none_left packet.blocking_findings))
  invalid_if (not (is_text packet.catalog_sha256 c.catalog_sha256))

unfoldable pub validate :
    World → Control → Catalog → (path target role : String) → Check ReviewRecord
unfolding check_subject independent_reviewer is_known_author check_session check_dispatch criteria
    is_covered hashed_all
validate w c cat path target role = do
  packet ← readable (w.files.review_packet path)
  check_subject w.files c packet role
  reviewer ← independent_reviewer packet
  invalid_if (is_known_author c reviewer)
  check_session w.files packet role reviewer
  check_dispatch c packet role reviewer
  required ← criteria c cat target
  invalid_if (is_empty required)
  invalid_if (not (all (is_covered packet.coverage target) required))
  invalid_if (is_empty packet.artifacts)
  hashed_all w.files packet.artifacts
  candidate_sha ← at_key packet.candidate_sha
  tree_sha ← at_key packet.tree_sha
  ok (record {
    role = role;
    candidate_sha = candidate_sha;
    tree_sha = tree_sha;
    reviewer = reviewer;
    packet = record { path = path; sha256 = w.files.sha256 path };
  })
