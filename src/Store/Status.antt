-- ===== src/Store/Status.antt =====
-- vp/vpstore.py: the item statuses, the transition table, and the run statuses.
use voice_pod_dispatcher.Prelude.{ℕ, String, Bool, true, false, ◌||◌, List, [], ◌∷◌, ◌==◌}

pub data Status : Type 0 where
  ready assigned building grading junior_satisfied preparing prepared proof_pending : Status
  final_review approved promoted paused blocked stopped : Status

abbrev index : Status → ℕ
index ready = 0
index assigned = 1
index building = 2
index grading = 3
index junior_satisfied = 4
index preparing = 5
index prepared = 6
index proof_pending = 7
index final_review = 8
index approved = 9
index promoted = 10
index paused = 11
index blocked = 12
index stopped = 13

abbrev pub same_status : Status → Status → Bool
same_status a b = index a == index b

abbrev pub status_in : Status → List Status → Bool
status_in s [] = false
status_in s (t ∷ ts) = same_status s t || status_in s ts

-- ITEM_TRANSITIONS
abbrev pub item_transitions : Status → List Status
item_transitions ready = assigned ∷ paused ∷ blocked ∷ stopped ∷ []
item_transitions assigned = building ∷ ready ∷ paused ∷ blocked ∷ stopped ∷ []
item_transitions building = grading ∷ paused ∷ blocked ∷ stopped ∷ []
item_transitions grading = building ∷ junior_satisfied ∷ paused ∷ blocked ∷ stopped ∷ []
item_transitions junior_satisfied = preparing ∷ grading ∷ paused ∷ blocked ∷ stopped ∷ []
item_transitions preparing = prepared ∷ grading ∷ paused ∷ blocked ∷ stopped ∷ []
item_transitions prepared = proof_pending ∷ final_review ∷ grading ∷ paused ∷ blocked ∷ stopped ∷ []
item_transitions proof_pending = final_review ∷ grading ∷ prepared ∷ paused ∷ blocked ∷ stopped ∷ []
item_transitions final_review = approved ∷ grading ∷ paused ∷ blocked ∷ stopped ∷ []
item_transitions approved = promoted ∷ grading ∷ paused ∷ blocked ∷ stopped ∷ []
item_transitions promoted = []
item_transitions paused =
    ready ∷ assigned ∷ building ∷ grading ∷ junior_satisfied ∷ preparing ∷ prepared ∷ proof_pending
    ∷ final_review ∷ approved ∷ stopped ∷ blocked ∷ []
item_transitions blocked = ready ∷ grading ∷ stopped ∷ []
item_transitions stopped = []

-- The value that the column holds.
abbrev pub status_text : Status → String
status_text ready = "READY"
status_text assigned = "ASSIGNED"
status_text building = "BUILDING"
status_text grading = "GRADING"
status_text junior_satisfied = "JUNIOR_SATISFIED"
status_text preparing = "PREPARING"
status_text prepared = "PREPARED"
status_text proof_pending = "PROOF_PENDING"
status_text final_review = "FINAL_REVIEW"
status_text approved = "APPROVED"
status_text promoted = "PROMOTED"
status_text paused = "PAUSED"
status_text blocked = "BLOCKED"
status_text stopped = "STOPPED"

-- RUN_STATUSES
pub data RunStatus : Type 0 where
  running stopping halted inhibited : RunStatus

-- r["status"] in ("INHIBITED", "STOPPING", "STOPPED")
abbrev pub is_shut : RunStatus → Bool
is_shut running = false
is_shut _ = true
