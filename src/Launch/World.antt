-- ===== src/Launch/World.antt =====
-- ci/control/orchestration_control.py and ci/control/review_gate.py: what a command reads and does
-- not own: the clock, uuid4 (for its event and for a claim), the files that its arguments and records name, and git.
use voice_pod_dispatcher.Prelude.{ℕ, String, Bool, Option, List}
use voice_pod_dispatcher.Launch.Schema.{Evidence}

-- A row of the coverage of a review packet: coverage[target][criterion].
pub record Coverage : Type 0 where
  pub target : String
  pub criterion : String
  pub result : String

-- A review packet, as read from its file. `authors` is `none` if it is no list.
pub record ReviewPacket : Type 0 where
  pub role : Option String
  pub candidate_sha : Option String
  pub tree_sha : Option String
  pub union_sha : Option String
  pub verdict : Option String
  pub blocking_findings : Option (List String)
  pub catalog_sha256 : Option String
  pub reviewer : Option String
  pub authors : Option (List String)
  pub runtime_log : Evidence
  pub review_task_id : Option String
  pub coverage : List Coverage
  pub artifacts : List Evidence

-- A row of a session log. The ordinals are those that `_as_ordinal` reads, from 0 on.
pub record SessionMeta : Type 0 where
  pub id : Option String
  pub parent_thread_id : Option String
  pub forked_from_id : Option String
  pub forked_from_ordinal : Option ℕ
  pub history_start_ordinal : Option ℕ

pub record TurnContext : Type 0 where
  pub model : Option String
  pub effort : Option String
  pub session_id : Option String
  pub ordinal : Option ℕ

pub data LogRow : Type 0 where
  session_meta : SessionMeta → LogRow
  turn_context : TurnContext → LogRow
  other_row : LogRow

-- The JSON of the evidence that `invalidate` asks for; a key that is missing is `none`.
pub record Contamination : Type 0 where
  pub output_sha : Option String
  pub contaminating_commit : Option String
  pub clean_commit : Option String

-- The files, git, and the regular expressions, which Python's `re` evaluates.
pub record Files : Type 0 where
  pub matches : Evidence → Bool
  pub sha256 : String → String
  pub exists : String → Bool
  pub review_packet : String → Option ReviewPacket
  pub session_log : String → Option (List LogRow)
  pub is_native_log : String → Bool
  pub contamination : String → Option Contamination
  pub union_members : List (List String)
  pub migration_files : Option (List ℕ)
  pub descends : (repository ancestor tip : String) → Bool
  pub is_commit : (repository commit : String) → Bool
  pub tree_of : (repository commit : String) → Option String
  pub commit_subject : (repository commit : String) → Option String
  pub is_safe_subject : String → Bool
  pub is_commit_sha : String → Bool
  pub is_short_sha : String → Bool

pub record World : Type 0 where
  pub now : ℕ
  pub uuid : String
  pub claim_uuid : String
  pub files : Files
