-- ===== src/Launch/Schema.antt =====
-- ci/control/orchestration_control.py: the states of a task, and run-state.json and the catalog as
-- records. A dict keyed by ids is the list of its values in the order of insertion. Keys that are
-- written and never read are left out.
use voice_pod_dispatcher.Prelude.{ℕ, String, Bool, false, ◌||◌, Option, List, [], ◌∷◌, ◌==◌}

pub data TaskState : Type 0 where
  planned waiting_dependency ready claimed dispatched running result_received : TaskState
  verified integrated repair_required blocked invalid_evidence cancelled : TaskState

abbrev index : TaskState → ℕ
index planned = 0
index waiting_dependency = 1
index ready = 2
index claimed = 3
index dispatched = 4
index running = 5
index result_received = 6
index verified = 7
index integrated = 8
index repair_required = 9
index blocked = 10
index invalid_evidence = 11
index cancelled = 12

abbrev pub same_state : TaskState → TaskState → Bool
same_state a b = index a == index b

abbrev pub state_in : TaskState → List TaskState → Bool
state_in s [] = false
state_in s (t ∷ ts) = same_state s t || state_in s ts

abbrev pub active_states : List TaskState
active_states = claimed ∷ dispatched ∷ running ∷ result_received ∷ []

abbrev pub finished_states : List TaskState
finished_states =
    verified ∷ integrated ∷ repair_required ∷ blocked ∷ invalid_evidence ∷ cancelled ∷ []

-- The states of a task that has not been started.
abbrev pub unstarted : List TaskState
unstarted = planned ∷ waiting_dependency ∷ ready ∷ []

-- {"VERIFIED", "INTEGRATED"}
abbrev pub accepted : List TaskState
accepted = verified ∷ integrated ∷ []

-- VALID_OUTCOMES, which the command line asks for
pub data Outcome : Type 0 where
  is_verified is_integrated needs_repair is_blocked bad_evidence : Outcome

abbrev pub outcome_state : Outcome → TaskState
outcome_state is_verified = verified
outcome_state is_integrated = integrated
outcome_state needs_repair = repair_required
outcome_state is_blocked = blocked
outcome_state bad_evidence = invalid_evidence

pub data Phase : Type 0 where
  prepared active draining : Phase

-- A file that is named with its sha256.
pub record Evidence : Type 0 where
  pub path : String
  pub sha256 : String

-- The record that `review_gate.validate` returns, whose status is always PASS.
pub record ReviewRecord : Type 0 where
  pub role : String
  pub candidate_sha : String
  pub tree_sha : String
  pub reviewer : String
  pub packet : Evidence

-- catalog["roles"][kind]
pub record Route : Type 0 where
  pub model : String
  pub effort : String

-- The entry of `waiting_for`: a dependency, or a junior review of an integrated task.
pub data Wait : Type 0 where
  on_task on_review : (task_id : String) → Wait

pub record Blocker : Type 0 where
  pub class : String
  pub reason : Option String

-- The parameters of a dynamic task: their keys, and those that the commands read.
pub record Parameters : Type 0 where
  pub keys : List String
  pub candidate_sha : Option String
  pub tree_sha : Option String
  pub scope : Option String
  pub union_sha : Option String

pub record Task : Type 0 where
  pub task_id : String
  pub chief : String
  pub kind : String
  pub role : Route
  pub dynamic : Bool
  pub parameters : Parameters
  pub acceptance : List String
  pub review_key : Option (List String)
  pub state : TaskState
  pub depends_on : List String
  pub rewired : Bool
  pub waiting_for : List Wait
  pub unlocks_dependents : Bool
  pub is_accepted : Bool
  pub attempt_id : Option String
  pub child_id : Option String
  pub claim_id : Option String
  pub owned_paths : List String
  pub base_sha : Option String
  pub output_sha : Option String
  pub tree_sha : Option String
  pub evidence : List Evidence
  pub blocker : Option Blocker
  pub reviews : List ReviewRecord
  pub stacked_on : List String
  pub updated_at : ℕ

pub record Claim : Type 0 where
  pub claim_id : String
  pub task_id : String
  pub chief : String
  pub attempt_id : String
  pub paths : List String
  pub is_active : Bool

pub record Candidate : Type 0 where
  pub sha : Option String
  pub tree : Option String
  pub repository : Option String
  pub registered_at : ℕ

pub record Chief : Type 0 where
  pub name : String
  pub thread_id : Option String
  pub is_bound : Bool

pub record ActivationGate : Type 0 where
  pub name : String
  pub is_satisfied : Bool

pub record Event : Type 0 where
  pub event_id : String
  pub sequence : ℕ
  pub type : String
  pub task_id : Option String
  pub created_at : ℕ

pub record Message : Type 0 where
  pub message_id : String
  pub type : String
  pub to_chief : String
  pub source_event_id : String
  pub task_ids : List String
  pub created_at : ℕ

pub data Document : Type 0 where
  event_document : Event → Document
  message_document : Message → Document

pub record Publication : Type 0 where
  pub path : String
  pub document : Document

pub record Migration : Type 0 where
  pub number : ℕ
  pub task : String

-- run-state.json
pub record Control : Type 0 where
  pub phase : Phase
  pub catalog_sha256 : String
  pub candidate : Candidate
  pub chiefs : List Chief
  pub sequence : ℕ
  pub activation_gates : List ActivationGate
  pub claims : List Claim
  pub tasks : List Task
  pub migrations : List Migration
  pub publications : List Publication

pub record Contract : Type 0 where
  pub id : String
  pub chief : String
  pub kind : String
  pub role : Route
  pub depends_on : List String
  pub verification : List String
  pub acceptance : List String

pub record Template : Type 0 where
  pub id : String
  pub kind : String
  pub required_parameters : List String
  pub acceptance : List String

-- The catalog, and the sha256 of its file.
pub record Catalog : Type 0 where
  pub sha256 : String
  pub contracts : List Contract
  pub templates : List Template
  pub roles : List (String × Route)
