-- ===== src/Store/Log.antt =====
-- vp/vpstore.py: statements against one table, `next_id`, `current_run`, and the event writer.
use voice_pod_dispatcher.Prelude.{
  ℕ, ◌+◌, String, str_eq, Bool, true, false, ◌&&◌, ◌||◌, List, [], ◌∷◌, Option, none, some,
  if◌then◌else◌, find_row, latest, length, truthy, same_text, is_among, concat, pad5,
}
use voice_pod_dispatcher.Store.Schema.{
  Run, Role, Packet, Attempt, Delivery, Review, Proof, Promotion, Violation, Event, Message, Union,
  Db, Line, event_line, escalation_line, Env,
}
use voice_pod_dispatcher.Store.Tx.{Action, ok, pure, gets, some_or, refused, ◌>>=◌, ◌>>◌}

-- An INSERT or UPDATE, by the table it goes to. `item` and `event` have writers of their own.
pub data Edit : Type 0 where
  runs : (List Run → List Run) → Edit
  roles : (List Role → List Role) → Edit
  packets : (List Packet → List Packet) → Edit
  attempts : (List Attempt → List Attempt) → Edit
  deliveries : (List Delivery → List Delivery) → Edit
  reviews : (List Review → List Review) → Edit
  proofs : (List Proof → List Proof) → Edit
  promotions : (List Promotion → List Promotion) → Edit
  violations : (List Violation → List Violation) → Edit
  messages : (List Message → List Message) → Edit
  unions : (List Union → List Union) → Edit
  counters : (List (String × ℕ) → List (String × ℕ)) → Edit

unfoldable pub edited : Edit → Db → Db
edited (runs f) d = record d { runs = f d.runs }
edited (roles f) d = record d { roles = f d.roles }
edited (packets f) d = record d { packets = f d.packets }
edited (attempts f) d = record d { attempts = f d.attempts }
edited (deliveries f) d = record d { deliveries = f d.deliveries }
edited (reviews f) d = record d { reviews = f d.reviews }
edited (proofs f) d = record d { proofs = f d.proofs }
edited (promotions f) d = record d { promotions = f d.promotions }
edited (violations f) d = record d { violations = f d.violations }
edited (messages f) d = record d { messages = f d.messages }
edited (unions f) d = record d { unions = f d.unions }
edited (counters f) d = record d { counters = f d.counters }

unfoldable pub write : Edit → Action (Unit {0})
unfolding edited
write e s = (ok tt, record s { db = edited e s.db })

-- self._pending_lines.append(…)
unfoldable pub queue_line : Line → Action (Unit {0})
queue_line l s = (ok tt, record s { pending = l ∷ s.pending })

unfoldable pub insert_row {ℓ} : {A : Type ℓ} → A → List A → List A
insert_row x xs = x ∷ xs

unfoldable pub bump_counter : String → List (String × ℕ) → List (String × ℕ)
bump_counter name [] = (name, 1) ∷ []
bump_counter name ((key, n) ∷ rest) =
    if str_eq key name then (key, n + 1) ∷ rest else (key, n) ∷ bump_counter name rest

counter_value : String → List (String × ℕ) → ℕ
counter_value name [] = 0
counter_value name ((key, n) ∷ rest) = if str_eq key name then n else counter_value name rest

-- next_id: f"{name}-{n:05d}"
unfoldable pub next_id : String → Action String
unfolding bump_counter counter_value
next_id name = do
  write (counters (bump_counter name))
  n ← gets (λ d. counter_value name d.counters)
  pure (concat (name ∷ "-" ∷ pad5 n ∷ []))

unfoldable pub current_run : Db → Option Run
current_run d = latest (λ r. r.started_ts) d.runs

name_of_run : Option Run → String
name_of_run none = "-"
name_of_run (some r) = r.run_id

unfoldable pub run_id : Db → String
unfolding current_run name_of_run
run_id d = name_of_run (current_run d)

-- _require_run
unfoldable pub require_run : Action Run
require_run = do found ← gets current_run; some_or refused found

-- ESCALATION_KINDS
abbrev pub escalation_kinds : List String
escalation_kinds =
    "STUCK" ∷ "STALLED" ∷ "QUOTA" ∷ "AUTH" ∷ "BLOCKED" ∷ "VIOLATION" ∷ "INHIBIT" ∷ "STOP"
    ∷ "DELIVERY_INCIDENT" ∷ "ROUND_CAP" ∷ "RUNNER_DENIED" ∷ "RUNNER_TIMEOUT" ∷ "RUNNER_CRASH"
    ∷ "RUNNER_REFUSED" ∷ "QUOTA_WEEKLY" ∷ "QUOTA_ROLLING" ∷ "RATE" ∷ "DEGRADED" ∷ "MODEL_MISMATCH"
    ∷ "SESSION_MISMATCH" ∷ "ORPHANED" ∷ "RECORD_INVALID" ∷ "BUDGET" ∷ "DISK" ∷ "PARKED"
    ∷ "OWNER_ACTION" ∷ "TRUNK_MOVED" ∷ "PROOF_FAIL" ∷ "UNION_CONFLICT" ∷ []

-- The keyword arguments of `event`; `nothing` has their defaults.
pub record EventArgs : Type 0 where
  pub item : Option String
  pub attempt : Option String
  pub role : Option String
  pub from_role : Option String
  pub to_role : Option String
  pub ref : Option String
  pub idempotent : Bool
  pub escalate : Bool

abbrev pub nothing : EventArgs
nothing = record {
  item = none;
  attempt = none;
  role = none;
  from_role = none;
  to_role = none;
  ref = none;
  idempotent = false;
  escalate = false;
}

text_or_empty : Option String → String
text_or_empty none = ""
text_or_empty (some s) = s

-- f"{item}|{attempt}|{kind}|{ref}", where all four parts are there
unfoldable pub idem_key : String → EventArgs → Option String
unfolding text_or_empty
idem_key kind a =
    if a.idempotent && truthy a.item && truthy a.attempt && truthy a.ref
    then some (
        concat (
          text_or_empty a.item
          ∷ "|"
          ∷ text_or_empty a.attempt
          ∷ "|"
          ∷ kind
          ∷ "|"
          ∷ text_or_empty a.ref
          ∷ []))
    else none

unfoldable pub find_idem : Option String → List Event → Option Event
find_idem none es = none
find_idem (some key) es = find_row (λ e. same_text e.idem (some key)) es

unfoldable pub new_event : Env → String → EventArgs → Db → Event
unfolding run_id idem_key
new_event env kind a d = record {
  seq = length d.events + 1;
  ts = env.now;
  run = run_id d;
  item = a.item;
  attempt = a.attempt;
  role = a.role;
  kind = kind;
  from_role = a.from_role;
  to_role = a.to_role;
  ref = a.ref;
  idem = idem_key kind a;
}

unfoldable pub mirror : String → Bool → Event → List Line → List Line
mirror kind escalate e lines =
    if is_among kind escalation_kinds || escalate
    then escalation_line e ∷ event_line e ∷ lines
    else event_line e ∷ lines

append_event : Env → String → EventArgs → Action (ℕ × Bool)
append_event env kind a s =
    let e = new_event env kind a s.db in
    (
      ok (e.seq, true),
      record s {
        db = record s.db { events = e ∷ s.db.events };
        pending = mirror kind a.escalate e s.pending;
      },
    )

unfoldable pub unless_known : Env → String → EventArgs → Option Event → Action (ℕ × Bool)
unfolding append_event pure
unless_known env kind a (some e) = pure (e.seq, false)
unless_known env kind a none = append_event env kind a

-- `event`: (seq, created)
unfoldable pub event_seq : Env → String → EventArgs → Action (ℕ × Bool)
unfolding find_idem
event_seq env kind a = do
  known ← gets (λ d. find_idem (idem_key kind a) d.events)
  unless_known env kind a known

-- The same, where the caller drops the result.
unfoldable pub event : Env → String → EventArgs → Action (Unit {0})
event env kind a = do event_seq env kind a; pure tt
