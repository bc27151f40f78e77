-- ===== src/Gate/Rework.antt =====
-- When a gate leads to an automatic rework, and how often (autogate.py, `decide`; dispatcher.py,
-- `send_rework`).
use text.Mathlib.Text.{starts_with}
use voice_pod_dispatcher.Prelude.{
  ℕ, suc, ◌+◌, ◌≤◌, String, eq_iff, ◌≡◌, refl, sym, ◌∙◌, Bool, true, false, List, [], ◌∷◌, ◌++◌,
  arith, is_among, inl, inr, ◌⊎◌,
}
use voice_pod_dispatcher.Gate.Words.{upper, Patterns}
use voice_pod_dispatcher.Gate.Decide.{
  Gate, History, Decision, rework, escalate, codex_opinion, judge_classes, judge_history,
  judge_opinion, decide, common, record_rework, after_decision, handled, max_auto_fails,
}

module _ (re : Patterns) where
  -- What holds where the decision is a rework.
  record Reworks (gate : Gate) (codex_text : String) (h : History) : Type 0 where
    pub no_pass : starts_with (upper gate.verdict) "PASS" ≡ false
    pub complete : starts_with (upper gate.verdict) "INCOMPLETE" ≡ false
    pub agreed : gate.disagree ≡ false
    pub opinion : (codex_opinion re gate.codex_detail).0 ≡ true
    pub few : h.fails + 1 ≤ max_auto_fails
    pub fresh : common h.classes (re.classes codex_text) ≡ []

  judge_classes-rework :
      (v : String) (cs : List String) → (judge_classes re v cs).0 ≡ rework → cs ≡ []
  unfolding judge_classes
  judge_classes-rework v [] e = refl
  judge_classes-rework v (c ∷ cs) e = cc

  judge_history-rework :
      (codex_text v : String) (h : History)
      → (judge_history re codex_text v h).0 ≡ rework
      → (h.fails + 1 ≤ max_auto_fails) × (common h.classes (re.classes codex_text) ≡ [])
  unfolding judge_history
  judge_history-rework codex_text v h e =
      (ground (arith, e), judge_classes-rework v _ (ground (arith, e)))

  judge_opinion-rework :
      (gate : Gate) (codex_text : String) (o : Bool × String) (h : History)
      → (judge_opinion re gate codex_text o h).0 ≡ rework
      → (o.0 ≡ true) × ((judge_history re codex_text o.1 h).0 ≡ rework)
  unfolding judge_opinion
  judge_opinion-rework gate codex_text (real, v) h e = (ground (arith, e), ground (arith, e))

  Reworks-decide :
      (gate : Gate) (codex_text : String) (h : History)
      → (decide re gate codex_text h).0 ≡ rework
      → Reworks gate codex_text h
  unfolding decide
  Reworks-decide gate codex_text h e =
      let (real, judged) =
        judge_opinion-rework gate codex_text (codex_opinion re gate.codex_detail) h
          (ground (arith, e)) in
      let (few, fresh) = judge_history-rework codex_text _ h judged in
      record {
        no_pass = ground (arith, e);
        complete = ground (arith, e);
        agreed = ground (arith, e);
        opinion = real;
        few = few;
        fresh = fresh;
      }

  -- The history after some gates of an item, and how many of them led to findings handed back.
  -- With each gate goes the review's text, and whether a rework could be posted.
  unfoldable pub handled_all : List (Gate × String × Bool) → History → History
  handled_all [] h = h
  handled_all ((gate, codex_text, posted) ∷ rest) h =
      handled_all rest (handled re gate codex_text posted h)

  unfoldable pub count_rework : Decision → Bool → ℕ → ℕ
  count_rework rework true n = suc n
  count_rework rework false n = n
  count_rework escalate posted n = n

  unfoldable pub reworks : List (Gate × String × Bool) → History → ℕ
  unfolding count_rework
  reworks [] h = 0
  reworks ((gate, codex_text, posted) ∷ rest) h =
      let n = reworks rest (handled re gate codex_text posted h) in
      count_rework (decide re gate codex_text h).0 posted n

  common-nothing :
      (others ns : List String) (c : String)
      → common others ns ≡ []
      → is_among c ns ≡ true
      → is_among c others ≡ false
  unfolding common
  common-nothing others [] c none_common e = cc
  common-nothing others (n ∷ ns) c none_common e =
      ground (arith, none_common, e, eq_iff c n, common-nothing others ns c)

  -- A gate leads to an automatic rework only where its verdict is neither PASS nor INCOMPLETE, the
  -- two reviewers agree, the Codex row carries a real opinion against the candidate, it is the
  -- item's first or second rework, and no finding class of the review is in the item's history.
  pub rework_only_on_new_findings :
      (gate : Gate) (codex_text : String) (h : History)
      → (decide re gate codex_text h).0 ≡ rework
      → (starts_with (upper gate.verdict) "PASS" ≡ false)
        × (starts_with (upper gate.verdict) "INCOMPLETE" ≡ false)
        × (gate.disagree ≡ false)
        × ((codex_opinion re gate.codex_detail).0 ≡ true)
        × (h.fails + 1 ≤ 2)
        × ((c : String) → is_among c (re.classes codex_text) ≡ true → is_among c h.classes ≡ false)
  rework_only_on_new_findings gate codex_text h e =
      let r = Reworks-decide gate codex_text h e in
      (
        r.no_pass,
        r.complete,
        r.agreed,
        r.opinion,
        r.few,
        λ c. common-nothing h.classes (re.classes codex_text) c r.fresh,
      )

  Decision-cases : (d : Decision) → (d ≡ rework) ⊎ (d ≡ escalate)
  Decision-cases rework = inl refl
  Decision-cases escalate = inr refl

  count_after :
      (d : Decision) (posted : Bool) (gate : Gate) (codex_text : String) (h : History)
      (rest : History → ℕ)
      → (d ≡ rework → h.fails + 1 ≤ 2)
      → ((h' : History) → h'.fails ≤ 2 → h'.fails + rest h' ≤ 2)
      → h.fails ≤ 2
      → h.fails + count_rework d posted (rest (after_decision re d posted codex_text h)) ≤ 2
  unfolding count_rework after_decision record_rework
  count_after rework true gate codex_text h rest next bound few =
      omega (arith, bound (record_rework re codex_text h) (next refl))
  count_after rework false gate codex_text h rest next bound few = bound h few
  count_after escalate posted gate codex_text h rest next bound few = bound h few

  -- Findings are handed back automatically at most twice: whatever gates an item goes through,
  -- whatever the reviews say and whichever reworks can be posted, the reworks that its history has
  -- and those that follow are two at most.
  pub at_most_two_reworks :
      (gates : List (Gate × String × Bool)) (h : History)
      → h.fails ≤ 2
      → h.fails + reworks gates h ≤ 2
  unfolding reworks handled
  at_most_two_reworks [] h few = omega (arith, few)
  at_most_two_reworks ((gate, codex_text, posted) ∷ rest) h few =
      count_after (decide re gate codex_text h).0 posted gate codex_text h (reworks rest)
        (λ again. (Reworks-decide gate codex_text h again).few) (at_most_two_reworks rest) few

  is_among-append :
      (c : String) (xs ys : List String) → is_among c ys ≡ true → is_among c (xs ++ ys) ≡ true
  is_among-append c [] ys e = e
  is_among-append c (x ∷ xs) ys e = ground (arith, is_among-append c xs ys e)

  after_decision-keeps :
      (d : Decision) (posted : Bool) (codex_text c : String) (h : History)
      → is_among c h.classes ≡ true
      → is_among c (after_decision re d posted codex_text h).classes ≡ true
  unfolding after_decision record_rework
  after_decision-keeps rework true codex_text c h e =
      is_among-append c (re.classes codex_text) h.classes e
  after_decision-keeps rework false codex_text c h e = e
  after_decision-keeps escalate posted codex_text c h e = e

  handled_all-keeps :
      (gates : List (Gate × String × Bool)) (c : String) (h : History)
      → is_among c h.classes ≡ true
      → is_among c (handled_all gates h).classes ≡ true
  unfolding handled_all handled
  handled_all-keeps [] c h e = e
  handled_all-keeps ((gate, codex_text, posted) ∷ rest) c h e =
      handled_all-keeps rest c (handled re gate codex_text posted h)
        (after_decision-keeps (decide re gate codex_text h).0 posted codex_text c h e)

  -- A finding class that was handed back once is never handed back again: after any further gates,
  -- a review that names it is escalated, whatever its gate says.
  pub known_class_is_escalated :
      (gates : List (Gate × String × Bool)) (gate : Gate) (codex_text c : String) (h : History)
      → is_among c h.classes ≡ true
      → is_among c (re.classes codex_text) ≡ true
      → (decide re gate codex_text (handled_all gates h)).0 ≡ escalate
  known_class_is_escalated gates gate codex_text c h known named =
      elim (Decision-cases (decide re gate codex_text (handled_all gates h)).0) [
        | inl again ↦
            let r = Reworks-decide gate codex_text (handled_all gates h) again in
            absurd (
              false≢true (
                sym (common-nothing _ (re.classes codex_text) c r.fresh named)
                ∙ handled_all-keeps gates c h known))
        | inr ends ↦ ends
      ]
    where
      false≢true : false ≡ true → ⊥
      false≢true p = cc
