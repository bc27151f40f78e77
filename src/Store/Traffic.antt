-- ===== src/Store/Traffic.antt =====
-- vp/vpstore.py: the communication matrix, violations, deliveries and messages.
use voice_pod_dispatcher.Prelude.{
  ℕ, ◌+◌, String, str_eq, Bool, true, false, not, ◌&&◌, ◌||◌, List, [], ◌∷◌, Option, none, some,
  if◌then◌else◌, find_row, update_row, length, is_among, same_text, truthy, or_else, concat, str_of,
}
use voice_pod_dispatcher.Gate.Words.{upper}
use voice_pod_dispatcher.Store.Schema.{
  Role, Delivery, Violation, Message, Env, Db, violation_line, message_line,
}
use voice_pod_dispatcher.Store.Tx.{
  Action, pure, gets, raise, do_if, some_or, tx, usage, refused, ◌>>=◌, ◌>>◌,
}
use voice_pod_dispatcher.Store.Log.{
  write, violations, deliveries, messages, insert_row, next_id, event, nothing, queue_line,
}
use voice_pod_dispatcher.Store.Runs.{role_kinds, is_role}

-- MATRIX
unfoldable pub matrix : List (String × List String)
matrix =
    ("owner", "architect" ∷ [])
    ∷ ("architect", "owner" ∷ "boss" ∷ [])
    ∷ ("boss", "architect" ∷ "cos" ∷ [])
    ∷ ("cos", "boss" ∷ "senior" ∷ "integrator" ∷ "quickie" ∷ "daemon" ∷ [])
    ∷ ("senior", "cos" ∷ "junior" ∷ [])
    ∷ ("integrator", "cos" ∷ [])
    ∷ ("quickie", "cos" ∷ "integrator" ∷ [])
    ∷ ("junior", "integrator" ∷ "daemon" ∷ [])
    ∷ ("daemon", "builder" ∷ "junior" ∷ "infra" ∷ "cos" ∷ "recovery" ∷ [])
    ∷ ("builder", "daemon" ∷ [])
    ∷ ("infra", "daemon" ∷ [])
    ∷ ("recovery", "cos" ∷ "owner" ∷ [])
    ∷ []

-- MATRIX.get(from_kind, set())
row_of : String → List (String × List String) → List String
row_of k [] = []
row_of k ((from, to) ∷ rest) = if str_eq from k then to else row_of k rest

keys_of : List (String × List String) → List String
keys_of [] = []
keys_of ((from, to) ∷ rest) = from ∷ keys_of rest

-- _matrix_ok
unfoldable pub matrix_ok : (from_kind to_kind type : String) → Bool
unfolding matrix row_of upper
matrix_ok from_kind to_kind type =
    if str_eq (upper type) "STOP" && str_eq from_kind "owner"
    then true
    else is_among to_kind (row_of from_kind matrix)

-- A bare kind name stays itself.
bare_kind : String → Option String
unfolding matrix keys_of
bare_kind ref =
    if is_among ref (keys_of matrix) || is_among ref role_kinds || str_eq ref "owner"
    then some ref
    else none

-- `if k: return k`, where k is the kind of the role row
kind_or_self : String → Option Role → Option String
unfolding bare_kind
kind_or_self ref none = bare_kind ref
kind_or_self ref (some r) = if str_eq r.kind "" then bare_kind ref else some r.kind

-- _kind_of
unfoldable pub kind_of : String → Db → Option String
unfolding kind_or_self
kind_of ref d = kind_or_self ref (find_row (is_role ref) d.roles)

unfoldable pub pair_ok : Option String → Option String → (type : String) → Bool
unfolding matrix_ok
pair_ok (some fk) (some tk) type = matrix_ok fk tk type
pair_ok _ _ type = false

-- DELIVERY_STATUSES
abbrev pub delivery_statuses : List String
delivery_statuses =
    "OUTBOX" ∷ "RESERVED" ∷ "SENT" ∷ "ACK" ∷ "CONSUMED" ∷ "UNCERTAIN" ∷ "FAILED" ∷ []

-- mapping.get(status, status)
unfoldable pub delivery_word : String → String
delivery_word s =
    if str_eq s "sent"
    then "SENT"
    else if str_eq s "ack"
    then "ACK"
    else if str_eq s "uncertain"
    then "UNCERTAIN"
    else if str_eq s "fail"
    then "FAILED"
    else if str_eq s "consumed"
    then "CONSUMED"
    else s

unfoldable pub delivered : String → Option String → ℕ → Delivery → Delivery
delivered st digest now r = record r {
  status = st;
  sent_ts = if str_eq st "SENT" then some now else r.sent_ts;
  ack_ts = if str_eq st "ACK" then some now else r.ack_ts;
  digest = or_else digest r.digest;
}

-- The refusal that is raised once the transaction has closed, or the result.
unfoldable pub raise_or : {A : Type 0} → Option A → Action A
raise_or none = raise refused
raise_or (some a) = pure a

-- What a message or delivery leaves of a role row's session: `session_ref` was given and differs.
session_differs : Option String → Option Role → Bool
session_differs none r = false
session_differs (some s) none = false
session_differs (some s) (some r) =
    truthy (some s) && truthy r.session_ref && not (same_text r.session_ref (some s))

module _ (env : Env) where
  unfoldable pub record_violation :
      (kind from_role to_role : String) → Option String → Action (Unit {0})
  record_violation kind from_role to_role payload_sha = do
    n ← gets (λ d. length d.violations)
    let v : Violation = record {
      id = n + 1;
      kind = kind;
      from_role = from_role;
      to_role = to_role;
      payload_sha = payload_sha;
      ts = env.now;
    }
    write (violations (insert_row v))
    queue_line (violation_line v)
    event env "VIOLATION" (record nothing {
      from_role = some from_role;
      to_role = some to_role;
      ref = some (str_of (n + 1));
    })

  unfoldable pub violation_record : (kind from_role to_role : String) → Action (Unit {0})
  violation_record kind from_role to_role = tx env (record_violation kind from_role to_role none)

  unfoldable pub out_of_matrix :
      {A : Type 0} → (from_role to_role : String) → Option String → Action (Option A)
  out_of_matrix from_role to_role sha = do
    record_violation "MATRIX" from_role to_role sha
    pure none

  unfoldable pub write_delivery :
      (from_role to_role type : String) → Option String → Action (Option String)
  write_delivery from_role to_role type ref = do
    did ← next_id "delivery"
    write (
        deliveries (
          insert_row (record {
            delivery_id = did;
            from_role = from_role;
            to_role = to_role;
            type = type;
            ref = ref;
            status = "RESERVED";
            reserved_ts = env.now;
            sent_ts = none;
            ack_ts = none;
            digest = none;
          })))
    event env "DELIVERY_RESERVE"
        (record nothing { from_role = some from_role; to_role = some to_role; ref = some did })
    pure (some did)

  -- The transaction of `reserve_delivery`.
  unfoldable pub reserve_row :
      (from_role to_role type : String) → Option String → Action (Option String)
  reserve_row from_role to_role type ref = do
    fk ← gets (kind_of from_role)
    tk ← gets (kind_of to_role)
    if pair_ok fk tk type
        then write_delivery from_role to_role type ref
        else out_of_matrix from_role to_role none

  -- The violation row is committed, and the refusal is raised after the transaction.
  unfoldable pub reserve_delivery :
      (from_role to_role type : String) → Option String → Action String
  reserve_delivery from_role to_role type ref = do
    did ← tx env (reserve_row from_role to_role type ref)
    raise_or did

  unfoldable pub delivery_status : (delivery_id status : String) → Option String → Action String
  unfolding delivered
  delivery_status delivery_id status digest =
      let st = delivery_word status in
      if not (is_among st delivery_statuses)
      then raise usage
      else tx env do
        found ← gets (λ d. find_row (λ r. str_eq r.delivery_id delivery_id) d.deliveries)
        d ← some_or refused found
        write (
            deliveries
              (update_row (λ r. str_eq r.delivery_id delivery_id) (delivered st digest env.now)))
        event env (concat ("DELIVERY_" ∷ st ∷ [])) (record nothing {
          from_role = some d.from_role;
          to_role = some d.to_role;
          ref = some delivery_id;
        })
        do_if (is_among st ("UNCERTAIN" ∷ "FAILED" ∷ [])) (
            event env "DELIVERY_INCIDENT" (record nothing {
              from_role = some d.from_role;
              to_role = some d.to_role;
              ref = some delivery_id;
            }))
        pure st

  write_message :
      (direction from_role to_role type : String) (ref body_sha session_ref result : Option String)
      → Action (Option ℕ)
  write_message direction from_role to_role type ref body_sha session_ref result = do
    n ← gets (λ d. length d.messages)
    let m : Message = record {
      id = n + 1;
      direction = direction;
      from_role = from_role;
      to_role = to_role;
      type = type;
      ref = ref;
      body_sha = body_sha;
      session_ref = session_ref;
      result = result;
      ts = env.now;
    }
    write (messages (insert_row m))
    queue_line (message_line m)
    event env (if str_eq direction "send" then "MSG_SEND" else "MSG_RECV") (record nothing {
      from_role = some from_role;
      to_role = some to_role;
      ref = some (str_of (n + 1));
    })
    pure (some (n + 1))

  wrong_sender : (from_role to_role : String) → Option String → Action (Option ℕ)
  wrong_sender from_role to_role sha = do
    record_violation "SENDER_ID" from_role to_role sha
    pure none

  unfoldable pub msg_log :
      (direction from_role to_role type : String)
      → (ref body_sha session_ref result : Option String) → Action ℕ
  unfolding out_of_matrix write_message wrong_sender session_differs
  msg_log direction from_role to_role type ref body_sha session_ref result =
      if not (is_among direction ("send" ∷ "recv" ∷ [])) then raise usage else do
        mid ← tx env do
          fk ← gets (kind_of from_role)
          tk ← gets (kind_of to_role)
          r ← gets (λ d. find_row (is_role from_role) d.roles)
          if not (pair_ok fk tk type)
              then out_of_matrix from_role to_role body_sha
              else if session_differs session_ref r
              then wrong_sender from_role to_role body_sha
              else write_message direction from_role to_role type ref body_sha session_ref result
        raise_or mid
