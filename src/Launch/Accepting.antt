-- ===== src/Launch/Accepting.antt =====
-- What an accepted result rests on (ci/control/orchestration_control.py, `complete`).
use voice_pod_dispatcher.Prelude.{
  String, str_eq, ◌≡◌, sym, ap, subst, Bool, true, false, not, ◌||◌, Option, none, some, List,
  if◌then◌else◌, arith, inl, inr, ◌⊎◌, is_among, truthy,
}
use voice_pod_dispatcher.Launch.Check.{ok, refuse_if}
use voice_pod_dispatcher.Launch.Schema.{
  state_in, accepted, Outcome, outcome_state, ReviewRecord, Wait, Task, Control, Catalog,
}
use voice_pod_dispatcher.Launch.World.{World}
use voice_pod_dispatcher.Launch.ReviewGate.{is_empty, is_role, validate}
use voice_pod_dispatcher.Launch.Readiness.{
  acceptance_tasks, current_review, dependency_status, task_contract,
}
use voice_pod_dispatcher.Launch.Acceptance.{
  role_needed, consolidated, dependencies_met, review_as, enforce_review_transition,
}
use voice_pod_dispatcher.Launch.Rows.{find_task, all_evidence, ensure_catalog}
use voice_pod_dispatcher.Launch.Work.{ResultArgs, complete}
use voice_pod_dispatcher.Launch.Ensures.{
  Ensures, Ensures-ok, Ensures-if, after_value, after_refusal, after_find, after_needed,
  refused-not,
}

-- The current review of L35, no dependency that is left, and a verdict of the final review that
-- `review_gate.validate` took.
pub record IsFinal (w : World) (cat : Catalog) (c : Control) (r : Task) : Type 0 where
  pub junior : Task
  pub found : find_task "L35" c ≡ some junior
  pub reviewed : current_review w.files c.candidate junior "junior" ≡ true
  pub missing : List Wait
  pub known : dependency_status w.files c.candidate c.tasks (task_contract cat r) ≡ ok missing
  pub nothing_left : is_empty missing ≡ true
  pub path : String
  pub record_of : ReviewRecord
  pub verdict_holds : validate w c cat path r.task_id "final_review" ≡ ok record_of

abbrev pub IsL42OrL44 : Task → Type 0
IsL42OrL44 r = (r.task_id ≡ "L42") ⊎ (r.task_id ≡ "L44")

is_final : (r : Task) → IsL42OrL44 r → str_eq r.task_id "L42" || str_eq r.task_id "L44" ≡ true
is_final r (inl e) = ap (λ s. str_eq s "L42" || str_eq s "L44") e
is_final r (inr e) = ap (λ s. str_eq s "L42" || str_eq s "L44") e

is_acceptance : (r : Task) → IsL42OrL44 r → is_among r.task_id acceptance_tasks ≡ true
is_acceptance r (inl e) = ap (λ s. is_among s acceptance_tasks) e
is_acceptance r (inr e) = ap (λ s. is_among s acceptance_tasks) e

abbrev role_for : String → String → Option String
role_for s kind =
    if str_eq s "L35"
    then some "junior"
    else if str_eq s "L42" || str_eq s "L44"
    then some "final_review"
    else if is_role kind
    then some kind
    else none

role_needed-final : (r : Task) → IsL42OrL44 r → role_needed r ≡ some "final_review"
unfolding role_needed
role_needed-final r (inl e) = ap (λ s. role_for s r.kind) e
role_needed-final r (inr e) = ap (λ s. role_for s r.kind) e

not_refused : (b : Bool) → refuse_if (not b) ≡ ok tt → b ≡ true
not_refused b e = ground (arith, refused-not (not b) e)

true≢false : {b : Bool} → b ≡ true → b ≡ false → ⊥
true≢false p q = ground arith

module _ (w : World) (cat : Catalog) (c : Control) (r : Task) (final : IsL42OrL44 r) where
  consolidated-L35 :
      Ensures
        (λ _.
          (junior : Task) × (find_task "L35" c ≡ some junior)
          × (current_review w.files c.candidate junior "junior" ≡ true))
        (consolidated w c r)
  unfolding consolidated
  consolidated-L35 =
      Ensures-if (str_eq r.task_id "L42" || str_eq r.task_id "L44") _ _
        (λ _.
          after_find (find_task "L35" c) _
            (λ junior found. record { at = λ a e. (junior, found, not_refused _ e) }))
        (λ ordinary. absurd (true≢false (is_final r final) ordinary))

  dependencies_met-nothing :
      Ensures
        (λ _.
          (missing : List Wait) × (dependency_status w.files c.candidate c.tasks
              (task_contract cat r)
            ≡ ok missing)
          × (is_empty missing ≡ true))
        (dependencies_met w cat c r)
  unfolding dependencies_met
  dependencies_met-nothing =
      Ensures-if (is_among r.task_id acceptance_tasks) _ _
        (λ _.
          after_value (dependency_status w.files c.candidate c.tasks (task_contract cat r)) _
            (λ missing known. record { at = λ a e. (missing, known, not_refused _ e) }))
        (λ ordinary. absurd (true≢false (is_acceptance r final) ordinary))

  IsFinal-review_as :
      (verdict : Option String)
      → Ensures (λ _. IsFinal w cat c r) (review_as w cat c r verdict "final_review")
  unfolding review_as
  IsFinal-review_as verdict = after_refusal (not (truthy verdict)) _ (λ _.
      after_needed verdict _ (λ packet _.
        after_value (validate w c cat packet r.task_id "final_review") _ (λ v valid.
          after_value (consolidated w c r) _ (λ a e.
            after_value (dependencies_met w cat c r) _ (λ b e'.
              let (junior, found, reviewed) = consolidated-L35.at a e in
              let (missing, known, nothing) = dependencies_met-nothing.at b e' in
              Ensures-ok _ (record {
                junior = junior;
                found = found;
                reviewed = reviewed;
                missing = missing;
                known = known;
                nothing_left = nothing;
                path = packet;
                record_of = v;
                verdict_holds = valid;
              }))))))

  IsFinal-enforce :
      (o : Outcome) (verdict : Option String)
      → state_in (outcome_state o) accepted ≡ true
      → Ensures (λ _. IsFinal w cat c r) (enforce_review_transition w cat c r o verdict)
  unfolding enforce_review_transition
  IsFinal-enforce o verdict accepts =
      Ensures-if (state_in (outcome_state o) accepted) _ _
        (λ _. for_role (role_needed r) (role_needed-final r final))
        (λ other. absurd (true≢false accepts other))
    where
      for_role :
          (needed_role : Option String)
          → needed_role ≡ some "final_review"
          → Ensures
              (λ _. IsFinal w cat c r)
              (elim needed_role [ none ↦ ok r | some role ↦ review_as w cat c r verdict role ])
      for_role needed_role e =
          subst
            (λ o.
              Ensures (λ _. IsFinal w cat c r)
                (elim o [ none ↦ ok r | some role ↦ review_as w cat c r verdict role ]))
            (sym e) (IsFinal-review_as verdict)

same_task : {o : Option Task} {x r : Task} → o ≡ some x → o ≡ some r → x ≡ r
same_task p q = cc

IsFinal-complete :
    (w : World) (cat : Catalog) (a : ResultArgs) (c : Control) (r : Task)
    → find_task a.task c ≡ some r
    → IsL42OrL44 r
    → state_in (outcome_state a.outcome) accepted ≡ true
    → Ensures (λ _. IsFinal w cat c r) (complete w cat a c)
unfolding complete
IsFinal-complete w cat a c r found final accepts =
    after_value (all_evidence w.files a.evidence) _ (λ evidence _.
      after_value (ensure_catalog cat c) _ (λ _ _. after_find (find_task a.task c) _ (λ x found'.
        after_refusal _ _ (λ _. after_refusal _ _ (λ _. after_refusal _ _ (λ _.
          after_value (enforce_review_transition w cat c x a.outcome a.verdict) _ (λ reviewed e.
            let same = same_task {o = find_task a.task c} found' found in
            let final_x = subst IsL42OrL44 (sym same) final in
            record {
              at = λ c' _.
                  subst (IsFinal w cat c) same
                    ((IsFinal-enforce w cat c x final_x a.outcome a.verdict accepts).at reviewed e);
            })))))))

-- L42 or L44 is completed as VERIFIED or INTEGRATED only if L35 has a junior review of the
-- registered candidate whose files are intact, nothing is left that the task waits for, and
-- `review_gate.validate` took a final review of it.
pub complete-IsFinal :
    (w : World) (cat : Catalog) (a : ResultArgs) (c c' : Control) (r : Task)
    → find_task a.task c ≡ some r
    → IsL42OrL44 r
    → state_in (outcome_state a.outcome) accepted ≡ true
    → complete w cat a c ≡ ok c'
    → IsFinal w cat c r
complete-IsFinal w cat a c c' r found final accepts ends =
    (IsFinal-complete w cat a c r found final accepts).at c' ends
