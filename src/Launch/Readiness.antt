-- ===== src/Launch/Readiness.antt =====
-- ci/control/orchestration_control.py: which tasks are READY, and who is told.
use Prim.Native.Nat.{Ordering}
use Prim.Native.String.{compare}
use voice_pod_dispatcher.Prelude.{
  String, str_eq, Bool, false, not, ◌&&◌, Option, none, some, List, [], ◌∷◌, ◌++◌, if◌then◌else◌,
  concat, is_among, truthy, find_row, all,
}
use voice_pod_dispatcher.Launch.Check.{Check, ok, ◌>>=◌, at_key}
use voice_pod_dispatcher.Launch.Schema.{
  TaskState, waiting_dependency, ready, integrated, same_state, state_in, unstarted, ReviewRecord,
  Wait, on_task, on_review, Task, Candidate, Event, Control, Contract, Catalog,
}
use voice_pod_dispatcher.Launch.World.{Files, World}
use voice_pod_dispatcher.Launch.ReviewGate.{is_role, is_task, is_contract, is_empty, is_text}
use voice_pod_dispatcher.Launch.Journal.{post}

-- The contract of a task that has a row.
unfoldable pub task_contract : Catalog → Task → Contract
task_contract cat r = elim (find_row (is_contract r.task_id) cat.contracts) [
  | some contract ↦ if r.rewired then record contract { depends_on = r.depends_on } else contract
  | none ↦ record {
    id = r.task_id;
    chief = r.chief;
    kind = r.kind;
    role = r.role;
    depends_on = r.depends_on;
    verification = [];
    acceptance = [];
  }
]

abbrev pub has_role : String → ReviewRecord → Bool
has_role role v = str_eq v.role role

-- The files that a review rests on are as they were. A record is written by `validate` only, with
-- the status PASS.
unfoldable pub is_intact : Files → ReviewRecord → Bool
is_intact files v = elim (files.review_packet v.packet.path) [
  | none ↦ false
  | some packet ↦
      files.matches v.packet
      && files.matches packet.runtime_log
      && all files.matches packet.artifacts
]

unfoldable pub current_review : Files → Candidate → Task → String → Bool
unfolding is_intact
current_review files candidate r role = elim (find_row (has_role role) r.reviews) [
  | none ↦ false
  | some v ↦ truthy candidate.sha && is_text candidate.sha v.candidate_sha && is_intact files v
]

-- {"L35", "L42", "L44"}
abbrev pub acceptance_tasks : List String
acceptance_tasks = "L35" ∷ "L42" ∷ "L44" ∷ []

unfoldable pub unmet : List Task → List String → Check (List Wait)
unmet tasks [] = ok []
unmet tasks (d ∷ ds) = do
  predecessor ← at_key (find_row (is_task d) tasks)
  rest ← unmet tasks ds
  ok (if predecessor.unlocks_dependents then rest else on_task d ∷ rest)

unfoldable pub owes_review : Files → Candidate → Task → Bool
unfolding is_role current_review
owes_review files candidate r =
    same_state r.state integrated
    && not (is_among r.task_id acceptance_tasks)
    && not (is_role r.kind)
    && not (current_review files candidate r "junior")

unfoldable pub unreviewed : Files → Candidate → List Task → List Wait
unfolding owes_review
unreviewed files candidate [] = []
unreviewed files candidate (r ∷ rs) =
    let rest = unreviewed files candidate rs in
    if owes_review files candidate r then on_review r.task_id ∷ rest else rest

-- What a task waits for; it is satisfied if that is nothing.
unfoldable pub dependency_status : Files → Candidate → List Task → Contract → Check (List Wait)
unfolding unmet unreviewed
dependency_status files candidate tasks contract = do
  waiting ← unmet tasks contract.depends_on
  ok (
      waiting
      ++ (if is_among contract.id acceptance_tasks then unreviewed files candidate tasks else []))

abbrev pub new_state : List Wait → TaskState
new_state waiting = if is_empty waiting then ready else waiting_dependency

-- One turn of the loop of `recompute_readiness`, with `tasks` the rows as they are then.
unfoldable pub refresh : World → Catalog → Candidate → List Task → Task → Check Task
unfolding dependency_status task_contract
refresh w cat candidate tasks r =
    if state_in r.state unstarted
    then (do
      waiting ← dependency_status w.files candidate tasks (task_contract cat r)
      ok (record r { state = new_state waiting; waiting_for = waiting; updated_at = w.now }))
    else ok r

-- The loop writes into the rows that it reads: those of `before` are done.
unfoldable pub refresh_rows :
    World → Catalog → Candidate → (before rows : List Task) → Check (List Task)
unfolding refresh
refresh_rows w cat candidate before [] = ok before
refresh_rows w cat candidate before (r ∷ rows) = do
  r' ← refresh w cat candidate (before ++ r ∷ rows) r
  refresh_rows w cat candidate (before ++ r' ∷ []) rows

-- became_ready: the rows that are READY and were not.
unfoldable pub became_ready : (old new : List Task) → List Task
became_ready (r ∷ rs) (r' ∷ rs') =
    let rest = became_ready rs rs' in
    if not (same_state r.state ready) && same_state r'.state ready && state_in r.state unstarted
    then r' ∷ rest
    else rest
became_ready _ _ = []

-- by_chief
unfoldable pub chiefs_of : List Task → (seen : List String) → List String
chiefs_of [] seen = []
chiefs_of (r ∷ rs) seen =
    if is_among r.chief seen then chiefs_of rs seen else r.chief ∷ chiefs_of rs (r.chief ∷ seen)

unfoldable pub ids_of : String → List Task → List String
ids_of chief [] = []
ids_of chief (r ∷ rs) =
    let rest = ids_of chief rs in if str_eq r.chief chief then r.task_id ∷ rest else rest

insert_text : String → List String → List String
insert_text s [] = s ∷ []
insert_text s (t ∷ ts) = elim (compare s t) [ Ordering.gt ↦ t ∷ insert_text s ts | _ ↦ s ∷ t ∷ ts ]

-- sorted(texts)
unfoldable pub sorted : List String → List String
unfolding insert_text
sorted [] = []
sorted (s ∷ ss) = insert_text s (sorted ss)

unfoldable pub notify : Event → List Task → String → Control → Control
unfolding ids_of sorted post
notify event rows chief c =
    post "TASKS_BECAME_READY" chief (concat ("ready-" ∷ event.event_id ∷ "-" ∷ chief ∷ [])) event
      (sorted (ids_of chief rows)) c

unfoldable pub notify_all : Event → List Task → List String → Control → Control
unfolding notify
notify_all event rows [] c = c
notify_all event rows (h ∷ hs) c = notify_all event rows hs (notify event rows h c)

unfoldable pub tell : Option Event → List Task → Control → Control
unfolding notify_all chiefs_of
tell none rows c = c
tell (some event) rows c = notify_all event rows (chiefs_of rows []) c

unfoldable pub recompute_readiness : World → Catalog → Option Event → Control → Check Control
unfolding refresh_rows tell became_ready
recompute_readiness w cat event c = do
  rows ← refresh_rows w cat c.candidate [] c.tasks
  ok (tell event (became_ready c.tasks rows) (record c { tasks = rows }))

-- ensure_catalog
unfoldable pub catalog_differs : Catalog → Control → Bool
catalog_differs cat c = not (str_eq cat.sha256 c.catalog_sha256)
