-- ===== src/Tests/Gates.antt =====
-- The theorems about automatic reworks, for gates that a reviewer rejects.
use text.Mathlib.Text.{starts_with}
use voice_pod_dispatcher.Prelude.{
  ◌+◌, ◌≤◌, String, ◌≡◌, refl, true, false, some, List, [], ◌∷◌, arith, is_among, str_eq,
  if◌then◌else◌,
}
use voice_pod_dispatcher.Gate.Words.{Patterns, upper, lower}
use voice_pod_dispatcher.Gate.Decide.{
  Gate, History, rework, escalate, codex_opinion, judge_history, judge_classes, judge_opinion,
  common, decide,
}
use voice_pod_dispatcher.Gate.Rework.{
  rework_only_on_new_findings, reworks, at_most_two_reworks, handled_all, known_class_is_escalated,
}

-- Every text has an opinion, and the review named "again" has a class that another has.
abbrev findings_of : String → List String
findings_of review = if str_eq review "again" then "high:pay.py" ∷ [] else "low:ui.ts" ∷ []

abbrev reading : Patterns
reading = record {
  rc_zero = λ _. true;
  verdict_word = λ _. some "reject";
  classes = findings_of;
  report_paths = λ _. [];
}

abbrev rejected : Gate
rejected = record {
  verdict = "FAIL";
  rows = record { name = "proofs"; passed = some false } ∷ [];
  undeclared = [];
  disagree = false;
  codex_detail = "verdict=reject";
}

abbrev one_fail : History
one_fail = record { fails = 1; classes = "high:pay.py" ∷ [] }

is_reworked : (decide reading rejected "first" one_fail).0 ≡ rework
unfolding decide judge_opinion judge_history judge_classes common codex_opinion upper lower
is_reworked = refl

rework_example :
    (starts_with (upper "FAIL") "PASS" ≡ false)
    × (starts_with (upper "FAIL") "INCOMPLETE" ≡ false)
    × (false ≡ false)
    × ((codex_opinion reading "verdict=reject").0 ≡ true)
    × (2 ≤ 2)
    × ((c : String)
        → is_among c (findings_of "first") ≡ true
        → is_among c ("high:pay.py" ∷ []) ≡ false)
rework_example = rework_only_on_new_findings reading rejected "first" one_fail is_reworked

at_most_two_example :
    1
      + reworks reading
          ((rejected, "first", true) ∷ (rejected, "again", false) ∷ (rejected, "first", true) ∷ [])
          one_fail
    ≤ 2
at_most_two_example =
    at_most_two_reworks reading
      ((rejected, "first", true) ∷ (rejected, "again", false) ∷ (rejected, "first", true) ∷ [])
      one_fail one_is_few
  where
    one_is_few : 1 ≤ 2
    one_is_few = omega arith

escalated_example :
    (decide reading rejected "again"
      (handled_all reading ((rejected, "first", true) ∷ []) one_fail)).0
    ≡ escalate
escalated_example =
    known_class_is_escalated reading ((rejected, "first", true) ∷ []) rejected "again" "high:pay.py"
      one_fail refl refl
