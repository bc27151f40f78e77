-- ===== src/Store/Findings.antt =====
-- vp/vpstore.py: `validate_findings` and `findings`. The document is what `json.load` returns,
-- taken as an object whose `lines` is a list of objects.
use voice_pod_dispatcher.Prelude.{
  ℕ, ◌+◌, String, Bool, true, false, not, ◌&&◌, ◌||◌, List, [], ◌∷◌, Option, none, some,
  if◌then◌else◌, leb, all, is_some, is_among, truthy, str_of,
}
use voice_pod_dispatcher.Store.Status.{
  Status, building, grading, junior_satisfied, final_review, blocked, status_in,
}
use voice_pod_dispatcher.Store.Schema.{Env}
use voice_pod_dispatcher.Store.Tx.{Action, pure, raise, raise_if, tx, usage, refused, ◌>>=◌, ◌>>◌}
use voice_pod_dispatcher.Store.Log.{event, nothing}
use voice_pod_dispatcher.Store.ItemRows.{get_item, set_item, set_round}

pub record FindingsLine : Type 0 where
  pub kind : Option String
  pub verdict : Option String
  pub id : Option String

pub record FindingsDoc : Type 0 where
  pub item : Option String
  pub lines : Option (List FindingsLine)
  pub attempt : Option String
  pub commit : Option String

text_is : List String → Option String → Bool
text_is names none = false
text_is names (some s) = is_among s names

line_ok : FindingsLine → Bool
unfolding text_is
line_ok ln =
    text_is ("invariant" ∷ "test" ∷ "negative" ∷ "forbidden" ∷ "evidence" ∷ []) ln.kind
    && text_is ("PASS" ∷ "FAIL" ∷ "UNKNOWN" ∷ []) ln.verdict
    && is_some ln.id

lines_ok : Option (List FindingsLine) → Bool
unfolding line_ok
lines_ok none = false
lines_ok (some []) = false
lines_ok (some (l ∷ ls)) = all line_ok (l ∷ ls)

unfoldable pub validate_findings : FindingsDoc → Bool
unfolding lines_ok
validate_findings doc = is_some doc.item && lines_ok doc.lines

abbrev lines_of : FindingsDoc → List FindingsLine
lines_of doc = elim doc.lines [ none ↦ [] | some ls ↦ ls ]

unfoldable pub has_verdict : String → FindingsLine → Bool
unfolding text_is
has_verdict v ln = text_is (v ∷ []) ln.verdict

unfoldable pub none_has : String → FindingsDoc → Bool
none_has v doc = all (λ ln. not (has_verdict v ln)) (lines_of doc)

unfoldable pub all_pass : FindingsDoc → Bool
all_pass doc = all (has_verdict "PASS") (lines_of doc)

-- UNKNOWN lines, no FAIL, and the driver says the junior has graded again.
unfoldable pub to_senior : Bool → FindingsDoc → Bool
to_senior unverified doc = unverified && not (none_has "UNKNOWN" doc) && none_has "FAIL" doc

module _ (env : Env) where
  at_cap : String → ℕ → Action Status
  at_cap item rnd = do
    event env "ROUND_CAP" (record nothing { item = some item; ref = some (str_of rnd) })
    set_item env item blocked none (set_round rnd ∷ [])
    pure blocked

  below_cap : String → ℕ → Action Status
  below_cap item rnd = do set_item env item building none (set_round rnd ∷ []); pure building

  -- A failed round: `rnd` counts it.
  unfoldable pub charge_round : String → ℕ → Action Status
  unfolding at_cap below_cap
  charge_round item rnd = if leb env.round_cap rnd then at_cap item rnd else below_cap item rnd

  unfoldable pub satisfy : String → Action Status
  satisfy item = do set_item env item junior_satisfied none []; pure junior_satisfied

  unfoldable pub settle : String → ℕ → Bool → Action Status
  settle item rnd satisfied = if satisfied then satisfy item else charge_round item (rnd + 1)

  unfoldable pub findings : String → FindingsDoc → Bool → Action Status
  findings item doc unverified_to_senior =
      if not (validate_findings doc)
      then raise usage
      else tx env do
        row ← get_item item
        raise_if (not (status_in row.status (grading ∷ final_review ∷ []))) refused
        event env "FINDINGS" (record nothing {
          item = some item;
          attempt = doc.attempt;
          ref = if truthy doc.commit then doc.commit else row.candidate_sha;
          idempotent = true;
        })
        settle item row.round (all_pass doc || to_senior unverified_to_senior doc)
