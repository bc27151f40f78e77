-- ===== src/Tests/Runs.antt =====
-- A catalog, a world and a run of the launch scheduler for the tests.
use voice_pod_dispatcher.Prelude.{String, true, false, none, some, List, [], ◌∷◌}
use voice_pod_dispatcher.Launch.Schema.{
  TaskState, waiting_dependency, running, verified, is_verified, active, Evidence, Task, Claim,
  Control, Contract, Catalog, Publication, event_document,
}
use voice_pod_dispatcher.Launch.Work.{ResultArgs}
use voice_pod_dispatcher.Launch.World.{
  ReviewPacket, SessionMeta, TurnContext, session_meta, turn_context, Files, World,
}

abbrev evidence_file : Evidence
evidence_file = record { path = "log"; sha256 = "h" }

-- A final review of L42, and the session that made it: a fork of "lead".
abbrev pub packet : ReviewPacket
packet = record {
  role = some "final_review";
  candidate_sha = some "cand";
  tree_sha = some "tree";
  union_sha = none;
  verdict = some "PASS";
  blocking_findings = some [];
  catalog_sha256 = some "catalog";
  reviewer = some "rev";
  authors = some ("dev" ∷ []);
  runtime_log = evidence_file;
  review_task_id = some "R1";
  coverage = record { target = "L42"; criterion = "tests"; result = "PASS" } ∷ [];
  artifacts = evidence_file ∷ [];
}

abbrev pub reviewer_meta : SessionMeta
reviewer_meta = record {
  id = some "rev";
  parent_thread_id = some "lead";
  forked_from_id = none;
  forked_from_ordinal = some 4;
  history_start_ordinal = none;
}

-- A session that names the reviewer's as its parent, so that the two stand in a circle.
abbrev pub lead_meta : SessionMeta
lead_meta = record {
  id = some "lead";
  parent_thread_id = some "rev";
  forked_from_id = none;
  forked_from_ordinal = none;
  history_start_ordinal = none;
}

abbrev turn : TurnContext
turn = record {
  model = some "gpt-5.6-sol";
  effort = some "high";
  session_id = some "rev";
  ordinal = some 5;
}

abbrev pub files : Files
files = record {
  matches = λ e. true;
  sha256 = λ path. "h";
  exists = λ path. true;
  review_packet = λ path. some packet;
  session_log =
      λ path. some (session_meta reviewer_meta ∷ session_meta lead_meta ∷ turn_context turn ∷ []);
  is_native_log = λ path. true;
  contamination = λ path. none;
  union_members = [];
  migration_files = some (270 ∷ 268 ∷ []);
  descends = λ repository ancestor tip. true;
  is_commit = λ repository commit. true;
  tree_of = λ repository commit. some "tree";
  commit_subject = λ repository commit. some "feat";
  is_safe_subject = λ subject. false;
  is_commit_sha = λ sha. true;
  is_short_sha = λ sha. true;
}

abbrev pub clock : World
clock = record { now = 50; uuid = "u1"; claim_uuid = "u2"; files = files }

abbrev contract : String → List String → Contract
contract id depends_on = record {
  id = id;
  chief = "A";
  kind = "build";
  role = record { model = "m"; effort = "e" };
  depends_on = depends_on;
  verification = "tests" ∷ [];
  acceptance = [];
}

abbrev pub catalog : Catalog
catalog = record {
  sha256 = "catalog";
  contracts =
      contract "T1" [] ∷ contract "T2" ("T1" ∷ []) ∷ contract "L35" [] ∷ contract "L42" [] ∷ [];
  templates = [];
  roles = [];
}

abbrev pub task : (id kind : String) → TaskState → Task
task id kind state = record {
  task_id = id;
  chief = "A";
  kind = kind;
  role = record { model = "m"; effort = "e" };
  dynamic = false;
  parameters = record {
    keys = [];
    candidate_sha = none;
    tree_sha = none;
    scope = none;
    union_sha = none;
  };
  acceptance = [];
  review_key = none;
  state = state;
  depends_on = [];
  rewired = false;
  waiting_for = [];
  unlocks_dependents = false;
  is_accepted = false;
  attempt_id = none;
  child_id = none;
  claim_id = none;
  owned_paths = [];
  base_sha = none;
  output_sha = none;
  tree_sha = none;
  evidence = [];
  blocker = none;
  reviews = [];
  stacked_on = [];
  updated_at = 1;
}

abbrev pub t1 : Task
t1 = record (task "T1" "build" running) { attempt_id = some "a1"; claim_id = some "c1" }

abbrev pub t2 : Task
t2 = record (task "T2" "build" waiting_dependency) { depends_on = "T1" ∷ [] }

-- The consolidated candidate, with its junior review.
abbrev pub l35 : Task
l35 = record (task "L35" "build" verified) {
  reviews =
      record {
        role = "junior";
        candidate_sha = "cand";
        tree_sha = "tree";
        reviewer = "jr";
        packet = evidence_file;
      }
      ∷ [];
}

abbrev pub l42 : Task
l42 = record (task "L42" "build" running) { attempt_id = some "a2" }

abbrev pub review_task : Task
review_task = record (task "R1" "final_review" running) { child_id = some "rev"; dynamic = true }

abbrev pub claim_c1 : Claim
claim_c1 = record {
  claim_id = "c1";
  task_id = "T1";
  chief = "A";
  attempt_id = "a1";
  paths = "src/a" ∷ [];
  is_active = true;
}

abbrev pub first_event : Publication
first_event = record {
  path = "events/1.json";
  document = event_document (record {
    event_id = "1";
    sequence = 1;
    type = "RUN_INITIALIZED";
    task_id = none;
    created_at = 1;
  });
}

abbrev pub control : Control
control = record {
  phase = active;
  catalog_sha256 = "catalog";
  candidate = record {
    sha = some "cand";
    tree = some "tree";
    repository = none;
    registered_at = 2;
  };
  chiefs = record { name = "A"; thread_id = some "chief"; is_bound = true } ∷ [];
  sequence = 1;
  activation_gates = [];
  claims = claim_c1 ∷ [];
  tasks = t1 ∷ t2 ∷ l35 ∷ l42 ∷ review_task ∷ [];
  migrations = record { number = 271; task = "T1" } ∷ [];
  publications = first_event ∷ [];
}

abbrev pub t1_done : ResultArgs
t1_done = record {
  task = "T1";
  attempt_id = "a1";
  outcome = is_verified;
  unlock_dependents = true;
  output_sha = some "out";
  tree_sha = none;
  evidence = "log" ∷ [];
  reason = none;
  verdict = none;
}
