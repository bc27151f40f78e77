-- ===== src/Store/Turns.antt =====
-- vp/vpstore.py: `turn_start`, `turn_end` and `reconcile`.
use voice_pod_dispatcher.Prelude.{
  ℕ, zero, suc, ◌+◌, String, str_eq, Bool, false, not, ◌&&◌, ◌||◌, List, [], ◌∷◌, Option, none,
  some, if◌then◌else◌, ltb, ◌==◌, find_row, update_row, select, is_some, is_among, or_else,
}
use voice_pod_dispatcher.Store.Schema.{Attempt, Env}
use voice_pod_dispatcher.Store.Tx.{
  Action, pure, gets, raise, raise_if, do_if, for_each, some_or, tx, usage, refused, conflict,
  ◌>>=◌, ◌>>◌,
}
use voice_pod_dispatcher.Store.Log.{
  write, attempts, insert_row, next_id, event, nothing, escalation_kinds,
}
use voice_pod_dispatcher.Store.ItemRows.{get_item}

-- TURN_KINDS
abbrev pub turn_kinds : List String
turn_kinds = "build" ∷ "grade" ∷ "infra" ∷ "review" ∷ "final" ∷ "integrate" ∷ "proof" ∷ "boss" ∷ []

-- ATTEMPT_STATUSES
abbrev pub attempt_statuses : List String
attempt_statuses =
    "RUNNING" ∷ "DONE" ∷ "STUCK" ∷ "STALLED" ∷ "QUOTA" ∷ "AUTH" ∷ "TRANSPORT" ∷ "INCOMPLETE"
    ∷ "ABORTED" ∷ "RUNNER_EMPTY" ∷ "RUNNER_DENIED" ∷ "RUNNER_TIMEOUT" ∷ "RUNNER_CRASH"
    ∷ "RUNNER_REFUSED" ∷ "QUOTA_WEEKLY" ∷ "QUOTA_ROLLING" ∷ "RATE" ∷ "DEGRADED" ∷ "MODEL_MISMATCH"
    ∷ "SESSION_MISMATCH" ∷ "ORPHANED" ∷ "STOPPED" ∷ "RECORD_INVALID" ∷ "PROGRESS_STOP" ∷ []

abbrev pub is_attempt : String → Attempt → Bool
is_attempt i a = str_eq a.attempt_id i

abbrev pub is_live : Attempt → Bool
is_live a = str_eq a.status "RUNNING"

-- item=? AND status='RUNNING'
abbrev pub runs_for : String → Attempt → Bool
runs_for i a = str_eq a.item i && is_live a

-- COALESCE(MAX(n),0) over the attempts of the item
unfoldable pub max_turn : String → List Attempt → ℕ
max_turn i [] = 0
max_turn i (a ∷ rest) = let m = max_turn i rest in if str_eq a.item i && ltb m a.n then a.n else m

unfoldable pub new_attempt :
    (attempt_id item : String) (n : ℕ) (kind : String) (session server model : Option String)
    (pid driver_pid : Option ℕ) (runner : Option String) (now : ℕ)
    → Attempt
new_attempt attempt_id item n kind session server model pid driver_pid runner now = record {
  attempt_id = attempt_id;
  item = item;
  n = n;
  kind = kind;
  session_id = session;
  server = server;
  model = model;
  status = "RUNNING";
  started_ts = now;
  ended_ts = none;
  result_path = none;
  detail = none;
  pid = pid;
  driver_pid = driver_pid;
  runner = runner;
}

unfoldable pub ended :
    (status : String) (result detail session : Option String) (now : ℕ) → Attempt → Attempt
ended status result detail session now a = record a {
  status = status;
  ended_ts = some now;
  result_path = result;
  detail = detail;
  session_id = or_else session a.session_id;
}

unfoldable pub orphaned : ℕ → Attempt → Attempt
orphaned now a = record a {
  status = "ORPHANED";
  ended_ts = some now;
  detail = some "reconcile: pid and driver are dead";
}

-- What `reconcile` asks the operating system and its caller.
pub record Processes : Type 0 where
  pub alive : ℕ → Bool
  pub own : ℕ
  pub live_pids : List ℕ

number_among : ℕ → List ℕ → Bool
number_among n [] = false
number_among n (m ∷ ms) = n == m || number_among n ms

pid_lives : Processes → Option ℕ → Bool
unfolding number_among
pid_lives p none = false
pid_lives p (some zero) = false
pid_lives p (some (suc n)) = number_among (suc n) p.live_pids || p.alive (suc n)

driver_dead : Processes → Option ℕ → Bool
driver_dead p none = false
driver_dead p (some zero) = false
driver_dead p (some (suc n)) = not (p.alive (suc n)) && not (suc n == p.own)

-- A child of a dead driver is nobody's.
unfoldable pub is_alive : Processes → Attempt → Bool
unfolding pid_lives driver_dead
is_alive p a = pid_lives p a.pid && not (driver_dead p a.driver_pid)

module _ (env : Env) where
  -- The attempt row of a turn, unless the item has a RUNNING one.
  unfoldable pub open_attempt :
      (item kind : String) (session server model : Option String) (pid driver_pid : Option ℕ)
      (runner : Option String)
      → Action String
  open_attempt item kind session server model pid driver_pid runner = do
    last ← gets (λ d. max_turn item d.attempts)
    aid ← next_id "attempt"
    write (
        attempts (
          insert_row (
            new_attempt aid item (last + 1) kind session server model pid driver_pid runner
              env.now)))
    pure aid

  unfoldable pub start_attempt :
      (item kind : String) (session server model : Option String) (pid driver_pid : Option ℕ)
      (runner : Option String)
      → Action String
  start_attempt item kind session server model pid driver_pid runner = do
    current ← gets (λ d. find_row (runs_for item) d.attempts)
    raise_if (is_some current) conflict
    open_attempt item kind session server model pid driver_pid runner

  unfoldable pub turn_start :
      (item kind : String) (session server model : Option String) (pid driver_pid : Option ℕ)
      (runner : Option String)
      → Action String
  turn_start item kind session server model pid driver_pid runner =
      if not (is_among kind turn_kinds)
      then raise usage
      else tx env do
        get_item item
        aid ← start_attempt item kind session server model pid driver_pid runner
        event env "TURN_START"
            (record nothing { item = some item; attempt = some aid; ref = some aid })
        pure aid

  -- The attempt row of a turn that ends; the result is the row before.
  unfoldable pub end_attempt :
      (attempt_id status : String) (result detail session : Option String) → Action Attempt
  end_attempt attempt_id status result detail session = do
    found ← gets (λ d. find_row (is_attempt attempt_id) d.attempts)
    a ← some_or refused found
    raise_if (not (is_live a)) conflict
    write
        (attempts (update_row (is_attempt attempt_id) (ended status result detail session env.now)))
    pure a

  unfoldable pub turn_end :
      (attempt_id status : String) (result detail session : Option String) → Action String
  turn_end attempt_id status result detail session =
      if not (is_among status attempt_statuses)
      then raise usage
      else tx env do
        a ← end_attempt attempt_id status result detail session
        event env "TURN_END" (record nothing {
          item = some a.item;
          attempt = some attempt_id;
          ref = some attempt_id;
        })
        do_if (is_among status escalation_kinds) (
            event env status (record nothing {
              item = some a.item;
              attempt = some attempt_id;
              ref = some attempt_id;
            }))
        pure attempt_id

  unfoldable pub lose_attempt : Attempt → Action (Unit {0})
  lose_attempt a =
      write (attempts (update_row (λ b. is_attempt a.attempt_id b && is_live b) (orphaned env.now)))

  -- One transaction for each RUNNING attempt whose process, or whose driver, is gone.
  unfoldable pub orphan : Attempt → Action (Unit {0})
  orphan a = tx env do
    lose_attempt a
    event env "ORPHANED" (record nothing {
      item = some a.item;
      attempt = some a.attempt_id;
      ref = some a.attempt_id;
    })

  unfoldable pub reconcile : Processes → Action (List Attempt)
  reconcile p = do
    rows ← gets (λ d. select is_live d.attempts)
    for_each (select (λ a. not (is_alive p a)) rows) orphan
    pure (select (λ a. not (is_alive p a)) rows)
