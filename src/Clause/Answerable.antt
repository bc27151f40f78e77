-- ===== src/Clause/Answerable.antt =====
-- Which rows a scoped twin may answer, and which a linter lets pass (vp/vpclause.py).
use voice_pod_dispatcher.Prelude.{
  String, ◌≡◌, refl, Bool, true, false, not, Option, none, some, if◌then◌else◌, is_among, ◌⊎◌, inl,
  inr,
}
use voice_pod_dispatcher.Gate.Words.{lower}
use voice_pod_dispatcher.Clause.Classify.{
  RowPatterns, Clause, fine, unrecognised, gate_mismatch, kinds, gate_fits, classify_word,
  classify_lead, classify_body, gate_text, classify, lint_severity, warn,
}

-- The three clauses that `classify_word` chooses from, by its two tests.
abbrev chosen : (known fits : Bool) (word detail gate : String) → Clause
chosen known fits word detail gate =
    if not known
    then record { kind = ""; detail = detail; gate = gate; status = unrecognised }
    else if fits
    then record { kind = word; detail = detail; gate = gate; status = fine }
    else record { kind = word; detail = detail; gate = gate; status = gate_mismatch }

word_never_warns :
    (known fits : Bool) (word detail gate : String)
    → lint_severity (chosen known fits word detail gate) ≡ warn
    → ⊥
unfolding lint_severity
word_never_warns true true word detail gate h = cc
word_never_warns true false word detail gate h = cc
word_never_warns false fits word detail gate h = cc

warned_lead :
    (o : Option (String × String)) (body gate : String)
    → lint_severity (classify_lead o body gate) ≡ warn
    → o ≡ none
unfolding classify_lead classify_word
warned_lead none body gate h = refl
warned_lead (some (word, detail)) body gate h = absurd (
    word_never_warns (is_among (lower word) kinds) (gate_fits (lower word) gate) (lower word) detail
      gate h)

warned_body :
    (re : RowPatterns) (o : Option String) (gate : String)
    → lint_severity (classify_body re o gate) ≡ warn
    → (o ≡ none) ⊎ ((body : String) × (o ≡ some body) × (re.lead_of body ≡ none))
unfolding classify_body
warned_body re none gate h = inl refl
warned_body re (some body) gate h = inr (body, refl, warned_lead (re.lead_of body) body gate h)

-- A linter lets a row pass with a warning only where the row has no check clause or its clause no
-- leading word: a leading word that is no kind, or a kind with the wrong gate, is never that mild.
warning_means_no_kind :
    (re : RowPatterns) (text : String)
    → lint_severity (classify re text) ≡ warn
    → (re.body_of text ≡ none)
      ⊎ ((body : String) × (re.body_of text ≡ some body) × (re.lead_of body ≡ none))
unfolding classify
warning_means_no_kind re text h = warned_body re (re.body_of text) (gate_text re text) h
