-- ===== src/Clause/Classify.antt =====
-- vp/vpclause.py: the typed `check:` clause of a benchmark row. The texts of reasons are left out.
use voice_pod_dispatcher.Prelude.{
  String, str_eq, Bool, true, false, not, ◌&&◌, Option, none, some, List, [], ◌∷◌, if◌then◌else◌,
  is_among,
}
use voice_pod_dispatcher.Gate.Words.{lower}

-- What the regular expressions and the trimming of a row give: the gate of a text (`_GATE_RE`), the
-- text after `check:` (`_CHECK_RE`) without its gate and its trailing full stops, and the leading
-- word of such a text with the trimmed text after its colon (`_KIND_RE`).
pub record RowPatterns : Type 0 where
  pub gate_of : String → Option String
  pub body_of : String → Option String
  pub lead_of : String → Option (String × String)

pub data ClauseStatus : Type 0 where
  fine absent unrecognised gate_mismatch : ClauseStatus

pub record Clause : Type 0 where
  pub kind : String
  pub detail : String
  pub gate : String
  pub status : ClauseStatus

pub data Severity : Type 0 where
  silent warn error : Severity

-- KINDS, CI_ONLY, CI_GATE
abbrev pub kinds : List String
kinds = "nodes" ∷ "job-status" ∷ "artifact" ∷ "external" ∷ []

abbrev pub ci_only : List String
ci_only = "nodes" ∷ "job-status" ∷ "artifact" ∷ []

abbrev pub ci_gate : String
ci_gate = "CIRCLECI"

text_of : Option String → String
text_of none = ""
text_of (some s) = s

unfoldable pub gate_fits : (word gate : String) → Bool
gate_fits word gate =
    if str_eq gate ""
    then true
    else if is_among word ci_only && not (str_eq gate ci_gate)
    then false
    else not (str_eq word "external" && str_eq gate ci_gate)

-- The clause of a leading word.
unfoldable pub classify_word : (word detail gate : String) → Clause
unfolding gate_fits
classify_word word detail gate =
    if not (is_among word kinds)
    then record { kind = ""; detail = detail; gate = gate; status = unrecognised }
    else if gate_fits word gate
    then record { kind = word; detail = detail; gate = gate; status = fine }
    else record { kind = word; detail = detail; gate = gate; status = gate_mismatch }

unfoldable pub classify_lead : Option (String × String) → (body gate : String) → Clause
unfolding classify_word
classify_lead none body gate = record { kind = ""; detail = body; gate = gate; status = absent }
classify_lead (some (word, detail)) body gate = classify_word (lower word) detail gate

unfoldable pub classify_body : RowPatterns → Option String → String → Clause
unfolding classify_lead
classify_body re none gate = record { kind = ""; detail = ""; gate = gate; status = absent }
classify_body re (some body) gate = classify_lead (re.lead_of body) body gate

-- The gate that a row declares, or the empty text.
unfoldable pub gate_text : RowPatterns → String → String
unfolding text_of
gate_text re text = text_of (re.gate_of text)

unfoldable pub classify : RowPatterns → String → Clause
unfolding classify_body
classify re text = classify_body re (re.body_of text) (gate_text re text)

abbrev is_fine : ClauseStatus → Bool
is_fine fine = true
is_fine _ = false

unfoldable pub twin_answerable : Clause → Bool
twin_answerable c = is_fine c.status && str_eq c.kind "nodes"

unfoldable pub lint_severity : Clause → Severity
lint_severity c = elim c.status [ fine ↦ silent | absent ↦ warn | _ ↦ error ]
