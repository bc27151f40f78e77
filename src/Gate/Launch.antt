-- ===== src/Gate/Launch.antt =====
-- autogate.py: when a gate may be launched at all.
use Prim.Native.String.{len, slice}
use voice_pod_dispatcher.Prelude.{
  ◌-◌, String, str_eq, Bool, false, not, ◌&&◌, Option, none, some, List, [], ◌∷◌, any, is_among,
  truthy,
}
use voice_pod_dispatcher.Gate.Words.{upper, lower, Patterns}

-- The queue's item, as far as this file reads it.
pub record QueueItem : Type 0 where
  pub status : Option String
  pub worktree : Option String
  pub lane : Option String
  pub proof_files : List String

text_of : Option String → String
text_of none = ""
text_of (some s) = s

-- GATEABLE_STATUS, RECOVERABLE_STATUS, MANUAL_GATEABLE_STATUS
abbrev pub gateable_status : List String
gateable_status = "dispatched" ∷ "rework" ∷ "reported" ∷ []

unfoldable pub has_gateable_status : QueueItem → Bool
unfolding text_of
has_gateable_status item = is_among (lower (text_of item.status)) gateable_status

unfoldable pub is_relayed : Option String → Bool
unfolding text_of
is_relayed executor = is_among (upper (text_of executor)) ("WORKER-1" ∷ "WORKER-2" ∷ "BOSS" ∷ [])

-- `exists` says whether a path is there at the lane head.
unfoldable pub report_trigger_ok : Patterns → QueueItem → String → (String → Bool) → Bool
report_trigger_ok re item text exists =
    has_gateable_status item && any exists (re.report_paths text)

unfoldable pub recovery_ok : Patterns → QueueItem → String → (String → Bool) → Bool
recovery_ok re item text exists = has_gateable_status item && any exists (re.report_paths text)

-- str(p).endswith(".py")
unfoldable pub is_python : String → Bool
is_python p = str_eq (slice p (len p - 3) (len p)) ".py"

unfoldable pub needs_box : List String → Bool
unfolding is_python any
needs_box proof_files = any is_python proof_files

unfoldable pub manual_gate_ok : Option QueueItem → Bool → Bool
manual_gate_ok none in_flight = false
manual_gate_ok (some item) in_flight = has_gateable_status item && not in_flight

unfoldable pub gate_launchable : QueueItem → (gates_running sha_ok : Bool) → Bool
gate_launchable item gates_running sha_ok =
    sha_ok
    && truthy item.worktree
    && truthy item.lane
    && not (gates_running && needs_box item.proof_files)
