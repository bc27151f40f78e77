-- ===== src/Gate/Decide.antt =====
-- autogate.py: what to do with a finished gate (`decide`), and what dispatcher.py records of a
-- rework (`send_rework`). The reasons are a constructor for each text, with what the text names.
use text.Mathlib.Text.{starts_with}
use voice_pod_dispatcher.Prelude.{
  ℕ, ◌+◌, String, str_eq, Bool, true, false, not, ◌&&◌, ◌||◌, Option, none, some, List, [], ◌∷◌,
  ◌++◌, if◌then◌else◌, ltb, is_among,
}
use voice_pod_dispatcher.Gate.Words.{contains, upper, lower, Patterns}

-- A row of the gate: its value is True, False or None (it did not run).
pub record Row : Type 0 where
  pub name : String
  pub passed : Option Bool

-- The dict that `parse_gate_md` returns, as far as `decide` reads it.
pub record Gate : Type 0 where
  pub verdict : String
  pub rows : List Row
  pub undeclared : List String
  pub disagree : Bool
  pub codex_detail : String

pub record History : Type 0 where
  pub fails : ℕ
  pub classes : List String

pub data Decision : Type 0 where
  rework escalate : Decision

pub data Why : Type 0 where
  gate_passed not_completed reviewers_disagree : Why
  gate_incomplete : (not_run undeclared : List String) → Why
  codex_approved : (failed : List String) → Why
  no_opinion : (word : String) → Why
  not_converging : (fails : ℕ) → Why
  same_classes : (repeated : List String) → Why
  hand_back : (word : String) → Why

-- REAL_VERDICTS, MAX_AUTO_FAILS
abbrev pub real_verdicts : List String
real_verdicts = "needs-attention" ∷ "reject" ∷ "needs_attention" ∷ "request-changes" ∷ []

abbrev pub max_auto_fails : ℕ
max_auto_fails = 2

unfoldable pub names_where : (Option Bool → Bool) → List Row → List String
names_where p [] = []
names_where p (r ∷ rs) = let rest = names_where p rs in if p r.passed then r.name ∷ rest else rest

abbrev is_false : Option Bool → Bool
is_false (some false) = true
is_false _ = false

abbrev is_none : Option Bool → Bool
is_none none = true
is_none (some _) = false

unfoldable pub failed_rows : Gate → List String
unfolding names_where
failed_rows gate = names_where is_false gate.rows

unfoldable pub not_run_rows : Gate → List String
unfolding names_where
not_run_rows gate = names_where is_none gate.rows

-- [n for n in names if n not in others]
unfoldable pub outside : List String → List String → List String
outside others [] = []
outside others (n ∷ ns) =
    let rest = outside others ns in if is_among n others then rest else n ∷ rest

-- set(names) & set(others), as a list
unfoldable pub common : List String → List String → List String
common others [] = []
common others (n ∷ ns) = let rest = common others ns in if is_among n others then n ∷ rest else rest

module _ (re : Patterns) where
  word_of : Option String → String
  word_of none = ""
  word_of (some v) = lower v

  unfoldable pub codex_opinion : String → Bool × String
  unfolding word_of
  codex_opinion d =
      let v = word_of (re.verdict_word d) in
      if str_eq d ""
        || contains d "WALLED"
        || contains (upper d) "NOT RUN"
        || contains d "not run"
        || contains d "still running"
      then (false, "NONE")
      else if contains d "rc=" && not (re.rc_zero d)
      then (false, "NONE")
      else if is_among v ("" ∷ "none" ∷ "none found (fail-closed)" ∷ [])
      then (false, "NONE")
      else (is_among v real_verdicts, v)

  unfoldable pub judge_classes : String → List String → Decision × Why
  judge_classes v [] = (rework, hand_back v)
  judge_classes v (c ∷ cs) = (escalate, same_classes (c ∷ cs))

  unfoldable pub judge_history : String → String → History → Decision × Why
  unfolding judge_classes common
  judge_history codex_text v history =
      if ltb max_auto_fails (history.fails + 1)
      then (escalate, not_converging (history.fails + 1))
      else judge_classes v (common history.classes (re.classes codex_text))

  unfoldable pub judge_opinion : Gate → String → Bool × String → History → Decision × Why
  unfolding judge_history failed_rows
  judge_opinion gate codex_text (real, v) history =
      if not real && str_eq v "approve"
      then (escalate, codex_approved (failed_rows gate))
      else if not real
      then (escalate, no_opinion v)
      else judge_history codex_text v history

  unfoldable pub decide : Gate → String → History → Decision × Why
  unfolding judge_opinion not_run_rows outside
  decide gate codex_text history =
      let verdict = upper gate.verdict in
      if starts_with verdict "PASS"
      then (escalate, gate_passed)
      else if starts_with verdict "INCOMPLETE"
      then (escalate, gate_incomplete (outside gate.undeclared (not_run_rows gate)) gate.undeclared)
      else if contains verdict "NOT COMPLETED" || contains verdict "CRASH"
      then (escalate, not_completed)
      else if gate.disagree
      then (escalate, reviewers_disagree)
      else judge_opinion gate codex_text (codex_opinion gate.codex_detail) history

  -- What `send_rework` leaves in the item's history.
  unfoldable pub record_rework : String → History → History
  record_rework codex_text h = record {
    fails = h.fails + 1;
    classes = re.classes codex_text ++ h.classes;
  }

  -- `posted`: the item file was written, and the prompt was posted or left for BOSS to relay.
  unfoldable pub after_decision : Decision → Bool → String → History → History
  after_decision rework true codex_text h = record_rework codex_text h
  after_decision rework false codex_text h = h
  after_decision escalate posted codex_text h = h

  -- The history after a gate has been handled.
  unfoldable pub handled : Gate → String → Bool → History → History
  handled gate codex_text posted h = after_decision (decide gate codex_text h).0 posted codex_text h
