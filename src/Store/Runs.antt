-- ===== src/Store/Runs.antt =====
-- vp/vpstore.py: the verbs on the run and on roles, `alert`, and the transaction of an operation.
use voice_pod_dispatcher.Prelude.{
  ℕ, String, str_eq, Bool, true, false, not, List, [], ◌∷◌, Option, some, if◌then◌else◌, find_row,
  update_row, is_some, is_among,
}
use voice_pod_dispatcher.Store.Status.{RunStatus, running, stopping, halted, inhibited}
use voice_pod_dispatcher.Store.Schema.{Run, Role, Env, alert_md_line, alert_line}
use voice_pod_dispatcher.Store.Tx.{
  Action, pure, gets, raise, raise_if, tx, usage, refused, conflict, ◌>>=◌, ◌>>◌,
}
use voice_pod_dispatcher.Store.Log.{
  write, runs, roles, insert_row, require_run, event, event_seq, nothing, queue_line,
}

abbrev is_run : String → Run → Bool
is_run i r = str_eq r.run_id i

unfoldable pub set_run : String → RunStatus → Action (Unit {0})
set_run i st = write (runs (update_row (is_run i) (λ r. record r { status = st })))

abbrev pub is_running : RunStatus → Bool
is_running running = true
is_running _ = false

abbrev pub is_stopping : RunStatus → Bool
is_stopping stopping = true
is_stopping _ = false

module _ (env : Env) where
  unfoldable pub run_init : String → Option String → Action String
  run_init i trunk_head = tx env do
    known ← gets (λ d. find_row (is_run i) d.runs)
    raise_if (is_some known) conflict
    write (
        runs (
          insert_row (record {
            run_id = i;
            started_ts = env.now;
            status = running;
            trunk_head = trunk_head;
          })))
    event env "RUN_INIT" (record nothing { ref = some i })
    pure i

  unfoldable pub run_stop : Action RunStatus
  run_stop = tx env do
    r ← require_run
    set_run r.run_id stopping
    event env "STOP" (record nothing { ref = some r.run_id })
    pure stopping

  unfoldable pub run_inhibit_set : Action RunStatus
  run_inhibit_set = tx env do
    r ← require_run
    set_run r.run_id inhibited
    event env "INHIBIT" (record nothing { ref = some r.run_id })
    pure inhibited

  unfoldable pub run_inhibit_clear : Action RunStatus
  run_inhibit_clear = tx env do
    r ← require_run
    raise_if (is_stopping r.status) refused
    set_run r.run_id running
    event env "INHIBIT" (record nothing { ref = some r.run_id })
    pure running

  unfoldable pub run_checkpoint : String → Action ℕ
  run_checkpoint role = tx env do
    require_run
    written ← event_seq env "CHECKPOINT" (record nothing { role = some role })
    pure (written.0)

  unfoldable pub run_resume : Action RunStatus
  run_resume = tx env do
    r ← require_run
    raise_if (is_running r.status) conflict
    raise_if env.stop_file refused
    set_run r.run_id running
    event env "RUN_RESUME" (record nothing { ref = some r.run_id })
    pure running

  unfoldable pub run_finish : Action RunStatus
  run_finish = tx env do
    r ← require_run
    set_run r.run_id halted
    event env "RUN_FINISH" (record nothing { ref = some r.run_id })
    pure halted

  unfoldable pub alert : (kind text : String) → Option String → Action ℕ
  alert kind text item = tx env do
    event env "ALERT" (record nothing { item = item; ref = some kind })
    queue_line (alert_md_line kind text item)
    queue_line (alert_line kind text item)
    pure env.now

-- ROLE_KINDS
abbrev pub role_kinds : List String
role_kinds =
    "architect" ∷ "boss" ∷ "cos" ∷ "recovery" ∷ "senior" ∷ "integrator" ∷ "quickie" ∷ "builder"
    ∷ "junior" ∷ "infra" ∷ "daemon" ∷ []

abbrev pub is_role : String → Role → Bool
is_role i r = str_eq r.role_id i

module _ (env : Env) where
  unfoldable pub role_add :
      (role_id kind : String) (session_ref model server : Option String) (group_no : Option ℕ)
      → Action String
  role_add role_id kind session_ref model server group_no =
      if not (is_among kind role_kinds)
      then raise usage
      else tx env do
        known ← gets (λ d. find_row (is_role role_id) d.roles)
        raise_if (is_some known) conflict
        write (
            roles (
              insert_row (record {
                role_id = role_id;
                kind = kind;
                session_ref = session_ref;
                model = model;
                server = server;
                group_no = group_no;
                available = false;
                ts = env.now;
              })))
        event env "ROLE_ADD" (record nothing { role = some role_id; ref = some role_id })
        pure role_id

  unfoldable pub mark_available : String → Action String
  mark_available role_id = tx env do
    known ← gets (λ d. find_row (is_role role_id) d.roles)
    raise_if (not (is_some known)) refused
    write (roles (update_row (is_role role_id) (λ r. record r { available = true })))
    event env "AVAILABLE" (record nothing { role = some role_id; ref = some role_id })
    pure role_id
