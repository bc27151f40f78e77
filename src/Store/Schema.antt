-- ===== src/Store/Schema.antt =====
-- vp/vpstore.py: the tables of state.db, a record for each, and the store around them.
-- A column that no operation of the store reads or writes is left out, and so is the event's
-- `detail` (JSON that is written and never read) and `mono`.
use voice_pod_dispatcher.Prelude.{ℕ, String, Bool, Option, List, []}
use voice_pod_dispatcher.Store.Status.{Status, RunStatus}

pub record Run : Type 0 where
  pub run_id : String
  pub started_ts : ℕ
  pub status : RunStatus
  pub trunk_head : Option String

pub record Role : Type 0 where
  pub role_id : String
  pub kind : String
  pub session_ref : Option String
  pub model : Option String
  pub server : Option String
  pub group_no : Option ℕ
  pub available : Bool
  pub ts : ℕ

pub data PacketStatus : Type 0 where
  draft packet_ready packet_blocked : PacketStatus

pub record Packet : Type 0 where
  pub packet_id : String
  pub item : String
  pub rev : ℕ
  pub submitted_by : Option String
  pub benchmark_path : String
  pub packet_path : String
  pub base_sha : String
  pub critical : Bool
  pub allowed_files : List String
  pub status : PacketStatus
  pub ts : ℕ

pub record Item : Type 0 where
  pub item : String
  pub rev : ℕ
  pub status : Status
  pub group_no : Option ℕ
  pub builder_role : Option String
  pub senior_plan : Option String
  pub senior_final : Option String
  pub worktree : Option String
  pub base_sha : Option String
  pub candidate_sha : Option String
  pub round : ℕ
  pub paused_from : Option Status
  pub note : Option String
  pub pinned_server : Option String
  pub union_id : Option String
  pub ts : ℕ

pub record Attempt : Type 0 where
  pub attempt_id : String
  pub item : String
  pub n : ℕ
  pub kind : String
  pub session_id : Option String
  pub server : Option String
  pub model : Option String
  pub status : String
  pub started_ts : ℕ
  pub ended_ts : Option ℕ
  pub result_path : Option String
  pub detail : Option String
  pub pid : Option ℕ
  pub driver_pid : Option ℕ
  pub runner : Option String

pub record Delivery : Type 0 where
  pub delivery_id : String
  pub from_role : String
  pub to_role : String
  pub type : String
  pub ref : Option String
  pub status : String
  pub reserved_ts : ℕ
  pub sent_ts : Option ℕ
  pub ack_ts : Option ℕ
  pub digest : Option String

pub data Subject : Type 0 where
  plan code : Subject

pub data Verdict : Type 0 where
  accepted findings_found refused_outright : Verdict

pub record Review : Type 0 where
  pub review_id : String
  pub item : String
  pub subject : Subject
  pub base_sha : String
  pub candidate_sha : String
  pub reviewer_role : String
  pub reviewer_ref : Option String
  pub independent : Bool
  pub verdict : Verdict
  pub findings : Option String
  pub ts : ℕ

pub data ProofStatus : Type 0 where
  requested proof_running pass fail_product fail_infra unknown cancelled : ProofStatus

pub record Proof : Type 0 where
  pub proof_id : String
  pub candidate_sha : String
  pub base_sha : String
  pub kind : String
  pub pipeline_id : Option String
  pub workflow_id : Option String
  pub status : ProofStatus
  pub counts : Option String
  pub artifacts_path : Option String
  pub ts_req : ℕ
  pub ts_done : Option ℕ

pub data PromotionStatus : Type 0 where
  refusal intent committed to_reconcile : PromotionStatus

-- The f-strings of `promote_prepare` and `promote_commit`, a constructor for each.
pub data Reason : Type 0 where
  stop_file_present run_is_shut unknown_review not_code other_candidate : Reason
  verdict_not_approved not_independent unknown_proof not_pass other_proof_candidate : Reason
  chain_order unknown_item item_not_approved : (name : String) → Reason
  ref_moved : (expected actual : String) → Reason

pub record Promotion : Type 0 where
  pub promo_id : String
  pub items : List String
  pub union_sha : String
  pub base_sha : String
  pub review_id : String
  pub proof_id : String
  pub status : PromotionStatus
  pub expected_ref : Option String
  pub actual_ref : Option String
  pub reason : Option Reason
  pub ts : ℕ

pub record Violation : Type 0 where
  pub id : ℕ
  pub kind : String
  pub from_role : String
  pub to_role : String
  pub payload_sha : Option String
  pub ts : ℕ

pub record Message : Type 0 where
  pub id : ℕ
  pub direction : String
  pub from_role : String
  pub to_role : String
  pub type : String
  pub ref : Option String
  pub body_sha : Option String
  pub session_ref : Option String
  pub result : Option String
  pub ts : ℕ

-- The table `union_`. `union_status` writes any text into `status`.
pub record Union : Type 0 where
  pub union_id : String
  pub no : ℕ
  pub items : List String
  pub union_sha : String
  pub base_sha : String
  pub worktree : Option String
  pub branch : Option String
  pub status : String
  pub note : Option String
  pub ts : ℕ

pub record Event : Type 0 where
  pub seq : ℕ
  pub ts : ℕ
  pub run : String
  pub item : Option String
  pub attempt : Option String
  pub role : Option String
  pub kind : String
  pub from_role : Option String
  pub to_role : Option String
  pub ref : Option String
  pub idem : Option String

pub record Db : Type 0 where
  pub runs : List Run
  pub roles : List Role
  pub packets : List Packet
  pub items : List Item
  pub attempts : List Attempt
  pub deliveries : List Delivery
  pub reviews : List Review
  pub proofs : List Proof
  pub promotions : List Promotion
  pub violations : List Violation
  pub events : List Event
  pub messages : List Message
  pub unions : List Union
  pub counters : List (String × ℕ)

-- One line of a .jsonl or .md file of the run root, by the file it goes to.
pub data Line : Type 0 where
  event_line : Event → Line
  escalation_line : Event → Line
  violation_line : Violation → Line
  message_line : Message → Line
  alert_md_line alert_line : (kind text : String) (item : Option String) → Line

-- `pending` is `_pending_lines`, `disk` the lines in the files; both the newest first.
pub record Store : Type 0 where
  pub db : Db
  pub pending : List Line
  pub disk : List Line

-- What the operations read and do not own: the STOP file, two numbers of roster.json, the clock,
-- and whether the n-th append of the transaction succeeds.
pub record Env : Type 0 where
  pub stop_file : Bool
  pub round_cap : ℕ
  pub wip_per_group : ℕ
  pub now : ℕ
  pub append_ok : ℕ → Bool

abbrev pub empty_db : Db
empty_db = record {
  runs = [];
  roles = [];
  packets = [];
  items = [];
  attempts = [];
  deliveries = [];
  reviews = [];
  proofs = [];
  promotions = [];
  violations = [];
  events = [];
  messages = [];
  unions = [];
  counters = [];
}
