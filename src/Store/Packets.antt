-- ===== src/Store/Packets.antt =====
-- vp/vpstore.py: packets, and `escalate`.
use voice_pod_dispatcher.Prelude.{
  ℕ, String, str_eq, Bool, true, false, not, ◌&&◌, List, [], ◌∷◌, Option, none, some, ltb,
  if◌then◌else◌, find_row, update_row, select, is_some, is_among, truthy,
}
use voice_pod_dispatcher.Store.Status.{ready}
use voice_pod_dispatcher.Store.Schema.{
  Packet, PacketStatus, draft, packet_ready, packet_blocked, Item, Db, Env,
}
use voice_pod_dispatcher.Store.Tx.{
  Action, pure, gets, raise, raise_if, do_if, some_or, tx, usage, refused, ◌>>=◌, ◌>>◌,
}
use voice_pod_dispatcher.Store.Log.{
  write, packets, insert_row, next_id, require_run, event, event_seq, nothing,
}
use voice_pod_dispatcher.Store.ItemRows.{find_item, get_item, insert_item}

abbrev pub is_packet : String → Packet → Bool
is_packet i p = str_eq p.packet_id i

abbrev pub is_ready : PacketStatus → Bool
is_ready packet_ready = true
is_ready _ = false

abbrev is_blocked : PacketStatus → Bool
is_blocked packet_blocked = true
is_blocked _ = false

-- The greater `ts`; of two with one `ts` the greater id, which is that of the newer row.
unfoldable pub newest_packet : List Packet → Option Packet
newest_packet [] = none
newest_packet (p ∷ ps) = elim (newest_packet ps) [
  | none ↦ some p
  | some q ↦ some (if ltb p.ts q.ts then q else p)
]

unfoldable pub newest_ready_packet : String → Db → Option Packet
unfolding newest_packet
newest_ready_packet i d =
    newest_packet (select (λ p. str_eq p.item i && is_ready p.status) d.packets)

unfoldable pub new_item : String → String → ℕ → Item
new_item i base now = record {
  item = i;
  rev = 1;
  status = ready;
  group_no = none;
  builder_role = none;
  senior_plan = none;
  senior_final = none;
  worktree = none;
  base_sha = some base;
  candidate_sha = none;
  round = 0;
  paused_from = none;
  note = none;
  pinned_server = none;
  union_id = none;
  ts = now;
}

-- ESCALATE_KINDS, with RUNNER_ESCALATIONS
abbrev pub escalate_kinds : List String
escalate_kinds =
    "STUCK" ∷ "STALLED" ∷ "QUOTA" ∷ "AUTH" ∷ "INCOMPLETE" ∷ "BLOCKED" ∷ "ROUND_CAP"
    ∷ "DELIVERY_INCIDENT" ∷ "INHIBIT" ∷ "JUNIOR_UNKNOWN" ∷ "RUNNER_DENIED" ∷ "RUNNER_TIMEOUT"
    ∷ "RUNNER_CRASH" ∷ "RUNNER_REFUSED" ∷ "QUOTA_WEEKLY" ∷ "QUOTA_ROLLING" ∷ "RATE" ∷ "DEGRADED"
    ∷ "MODEL_MISMATCH" ∷ "SESSION_MISMATCH" ∷ "ORPHANED" ∷ "RECORD_INVALID" ∷ "BUDGET" ∷ "DISK"
    ∷ "PARKED" ∷ "OWNER_ACTION" ∷ "TRUNK_MOVED" ∷ "PROOF_FAIL" ∷ "UNION_CONFLICT" ∷ []

module _ (env : Env) where
  unfoldable pub packet_submit :
      (item benchmark packet base_sha : String) (submitted_by : Option String) (critical : Bool)
      (allowed_files : List String)
      → Action String
  packet_submit item benchmark packet base_sha submitted_by critical allowed_files = tx env do
    require_run
    pid ← next_id "packet"
    write (
        packets (
          insert_row (record {
            packet_id = pid;
            item = item;
            rev = 1;
            submitted_by = submitted_by;
            benchmark_path = benchmark;
            packet_path = packet;
            base_sha = base_sha;
            critical = critical;
            allowed_files = allowed_files;
            status = draft;
            ts = env.now;
          })))
    event env "PACKET_SUBMIT" (record nothing { item = some item; ref = some pid })
    pure pid

  unfoldable pub ensure_item : (item base_sha : String) → Action (Unit {0})
  unfolding new_item
  ensure_item item base_sha = do
    row ← gets (λ d. find_item item d.items)
    do_if (not (is_some row)) (insert_item (new_item item base_sha env.now))

  unfoldable pub ready_packet : String → Action String
  ready_packet packet_id = tx env do
    found ← gets (λ d. find_row (is_packet packet_id) d.packets)
    p ← some_or refused found
    raise_if (is_blocked p.status) refused
    write (packets (update_row (is_packet packet_id) (λ r. record r { status = packet_ready })))
    ensure_item p.item p.base_sha
    event env "PACKET_READY" (record nothing { item = some p.item; ref = some packet_id })
    pure packet_id

  unfoldable pub packet_block : String → Action String
  packet_block packet_id = tx env do
    found ← gets (λ d. find_row (is_packet packet_id) d.packets)
    p ← some_or refused found
    write (packets (update_row (is_packet packet_id) (λ r. record r { status = packet_blocked })))
    event env "BLOCKED" (record nothing { item = some p.item; ref = some packet_id })
    pure packet_id

  unfoldable pub packet_show : String → Action Packet
  packet_show i = do found ← gets (newest_ready_packet i); some_or refused found

  unfoldable pub escalate : (kind item : String) → Option String → Action ℕ
  escalate kind item attempt =
      if not (is_among kind escalate_kinds)
      then raise usage
      else tx env do
        get_item item
        known ← gets (λ d. elim attempt [
          | none ↦ false
          | some a ↦ is_some (find_row (λ r. str_eq r.attempt_id a) d.attempts)
        ])
        raise_if (truthy attempt && not known) refused
        written ← event_seq env kind (record nothing {
          item = some item;
          attempt = attempt;
          ref = if truthy attempt then attempt else some item;
          escalate = true;
        })
        pure (written.0)
