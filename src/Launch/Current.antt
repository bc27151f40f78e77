-- ===== src/Launch/Current.antt =====
-- The states that `recompute_readiness` leaves to the tasks that were not started
-- (ci/control/orchestration_control.py).
use voice_pod_dispatcher.Prelude.{
  String, ◌≡◌, refl, sym, ◌∙◌, ap, subst, true, false, Option, none, some, List, [], ◌∷◌, map,
  arith, inl, inr, Bool-cases, find_row, is_among,
}
use voice_pod_dispatcher.Launch.Check.{ok, each}
use voice_pod_dispatcher.Launch.Schema.{
  ready, state_in, unstarted, Wait, Task, Candidate, Event, Control, Contract, Catalog,
}
use voice_pod_dispatcher.Launch.World.{Files, World}
use voice_pod_dispatcher.Launch.ReviewGate.{is_task}
use voice_pod_dispatcher.Launch.Journal.{new_event, write_event, post}
use voice_pod_dispatcher.Launch.Readiness.{
  acceptance_tasks, unmet, dependency_status, new_state, task_contract, refresh, refresh_rows, tell,
  notify, notify_all, chiefs_of, became_ready, recompute_readiness,
}
use voice_pod_dispatcher.Launch.Acceptance.{enforce_review_transition}
use voice_pod_dispatcher.Launch.Rows.{find_task, edit_task, all_evidence, ensure_catalog, announce}
use voice_pod_dispatcher.Launch.Work.{ResultArgs, with_result, release_own, complete}
use voice_pod_dispatcher.Launch.Ensures.{
  Ensures, Ensures-ok, Ensures-if, after_value, after_refusal, after_find,
}
use voice_pod_dispatcher.Launch.Refreshing.{
  blank, blank-refresh, dependency_status-blank, refresh_rows-each,
}

-- The state of a task that was not started is the one that its dependencies give it.
abbrev pub IsCurrent : Files → Catalog → Candidate → List Task → Task → Type 0
IsCurrent files cat k tasks r =
    state_in r.state unstarted ≡ true
    → (waiting : List Wait) × (dependency_status files k tasks (task_contract cat r) ≡ ok waiting)
      × (r.state ≡ new_state waiting)

abbrev pub AllCurrent : Files → Catalog → Candidate → (tasks rows : List Task) → Type 0
AllCurrent files cat k tasks [] = Unit
AllCurrent files cat k tasks (r ∷ rs) =
    IsCurrent files cat k tasks r × AllCurrent files cat k tasks rs

module _ (w : World) (cat : Catalog) (k : Candidate) (tasks : List Task) where
  IsCurrent-refresh : (r : Task) → Ensures (IsCurrent w.files cat k tasks) (refresh w cat k tasks r)
  unfolding refresh task_contract
  IsCurrent-refresh r =
      Ensures-if (state_in r.state unstarted) _ _
        (λ _.
          after_value (dependency_status w.files k tasks (task_contract cat r)) _
            (λ waiting e. Ensures-ok _ (λ _. (waiting, e, refl))))
        (λ started. Ensures-ok r (λ open_state. absurd (ground arith)))

  -- The rows of one pass over all tasks, and what they have in common with the old ones.
  AllCurrent-each :
      (rs : List Task)
      → Ensures
          (λ rs'. AllCurrent w.files cat k tasks rs' × (map blank rs' ≡ map blank rs))
          (each (refresh w cat k tasks) rs)
  unfolding each
  AllCurrent-each [] = Ensures-ok [] (tt, refl)
  AllCurrent-each (r ∷ rs) = after_value (refresh w cat k tasks r) _ (λ r' e.
      after_value (each (refresh w cat k tasks) rs) _ (λ rs' es.
        let (currents, same) = (AllCurrent-each rs).at rs' es in
        Ensures-ok (r' ∷ rs') (
          ((IsCurrent-refresh r).at r' e, currents),
          ap (λ x. x ∷ map blank rs') ((blank-refresh w cat k tasks r).at r' e)
              ∙ ap (λ xs. blank r ∷ xs) same,
        )))

AllCurrent-same :
    (files : Files) (cat : Catalog) (k : Candidate) (tasks tasks' rs : List Task)
    → map blank tasks' ≡ map blank tasks
    → AllCurrent files cat k tasks rs
    → AllCurrent files cat k tasks' rs
AllCurrent-same files cat k tasks tasks' [] e h = tt
AllCurrent-same files cat k tasks tasks' (r ∷ rs) e (hr, h) = (
  (λ open_state.
      let (waiting, known, state) = hr open_state in
      (
        waiting,
        dependency_status-blank files k tasks' tasks (task_contract cat r) e ∙ known,
        state,
      )),
  AllCurrent-same files cat k tasks tasks' rs e h,
)

-- What `recompute_readiness` tells the chiefs is in the outbox only.
abbrev Settled : Files → Catalog → Control → Type 0
Settled files cat c = AllCurrent files cat c.candidate c.tasks c.tasks

Settled-notify_all :
    (files : Files) (cat : Catalog) (e : Event) (rows : List Task) (hs : List String) (c : Control)
    → Settled files cat c
    → Settled files cat (notify_all e rows hs c)
unfolding notify_all notify post
Settled-notify_all files cat e rows [] c h = h
Settled-notify_all files cat e rows (x ∷ hs) c h =
    Settled-notify_all files cat e rows hs (notify e rows x c) h

Settled-tell :
    (files : Files) (cat : Catalog) (e : Option Event) (rows : List Task) (c : Control)
    → Settled files cat c
    → Settled files cat (tell e rows c)
unfolding tell
Settled-tell files cat none rows c h = h
Settled-tell files cat (some e) rows c h =
    Settled-notify_all files cat e rows (chiefs_of rows []) c h

Settled-recompute :
    (w : World) (cat : Catalog) (e : Option Event) (c : Control)
    → Ensures (Settled w.files cat) (recompute_readiness w cat e c)
unfolding recompute_readiness
Settled-recompute w cat e c =
    after_value (refresh_rows w cat c.candidate [] c.tasks) _ (λ rows found.
      let (currents, same) =
        (AllCurrent-each w cat c.candidate c.tasks c.tasks).at rows
          (sym (refresh_rows-each w cat c.candidate c.tasks) ∙ found) in
      Ensures-ok _ (
        Settled-tell w.files cat e (became_ready c.tasks rows) (record c { tasks = rows })
          (AllCurrent-same w.files cat c.candidate c.tasks rows rows same currents)))

IsCurrent-found :
    (files : Files) (cat : Catalog) (k : Candidate) (tasks rs : List Task) (i : String) (r : Task)
    → AllCurrent files cat k tasks rs
    → find_row (is_task i) rs ≡ some r
    → IsCurrent files cat k tasks r
unfolding find_row
IsCurrent-found files cat k tasks [] i r h e = absurd (ground arith)
IsCurrent-found files cat k tasks (x ∷ xs) i r (hx, h) e = elim (Bool-cases (is_task i x)) [
  | inl here ↦ subst (IsCurrent files cat k tasks) (same_row (rw here at e)) hx
  | inr apart ↦ IsCurrent-found files cat k tasks xs i r h (rw apart at e)
]
  where
    same_row : {x r : Task} → some x ≡ some r → x ≡ r
    same_row e = cc

-- After `recompute_readiness` has ended well, the dependencies of every task that was not started
-- can be told on the new rows, and the task is READY if there is nothing that it waits for, and
-- WAITING_DEPENDENCY otherwise.
pub recompute_readiness-new_state :
    (w : World) (cat : Catalog) (e : Option Event) (c c' : Control) (i : String) (r : Task)
    → recompute_readiness w cat e c ≡ ok c'
    → find_row (is_task i) c'.tasks ≡ some r
    → state_in r.state unstarted ≡ true
    → (waiting : List Wait) × (dependency_status w.files c'.candidate c'.tasks (task_contract cat r)
        ≡ ok waiting)
      × (r.state ≡ new_state waiting)
recompute_readiness-new_state w cat e c c' i r ends found open_state =
    IsCurrent-found w.files cat c'.candidate c'.tasks c'.tasks i r
      ((Settled-recompute w cat e c).at c' ends) found open_state

Settled-announce :
    (w : World) (cat : Catalog) (type i : String) (c : Control)
    → Ensures (Settled w.files cat) (announce w cat type i c)
unfolding announce
Settled-announce w cat type i c =
    Settled-recompute w cat (some (new_event w type (some i) c)) (write_event w type (some i) c)

Settled-complete :
    (w : World) (cat : Catalog) (a : ResultArgs) (c : Control)
    → Ensures (Settled w.files cat) (complete w cat a c)
unfolding complete
Settled-complete w cat a c = after_value (all_evidence w.files a.evidence) _ (λ evidence _.
    after_value (ensure_catalog cat c) _ (λ _ _. after_find (find_task a.task c) _ (λ r found.
      after_refusal _ _ (λ _. after_refusal _ _ (λ _. after_refusal _ _ (λ _.
        after_value (enforce_review_transition w cat c r a.outcome a.verdict) _ (λ reviewed _.
          after_value (release_own r (edit_task a.task (λ _. with_result w a evidence reviewed) c))
            _ (λ c' _. Settled-announce w cat "TASK_COMPLETED" a.task c'))))))))

met_dependencies :
    (files : Files) (k : Candidate) (tasks : List Task) (contract : Contract)
    → unmet tasks contract.depends_on ≡ ok []
    → is_among contract.id acceptance_tasks ≡ false
    → dependency_status files k tasks contract ≡ ok []
unfolding dependency_status
met_dependencies files k tasks contract met ordinary = rw (met, ordinary) refl

nothing_left : {waiting : List Wait} → ok waiting ≡ ok [] → waiting ≡ []
nothing_left e = ground arith

-- After a completion that ended well, a task that was not started, that is none of L35, L42 and L44
-- and whose dependencies all unlock their dependants is READY.
pub complete-readies :
    (w : World) (cat : Catalog) (a : ResultArgs) (c c' : Control) (i : String) (r : Task)
    → complete w cat a c ≡ ok c'
    → find_row (is_task i) c'.tasks ≡ some r
    → state_in r.state unstarted ≡ true
    → is_among (task_contract cat r).id acceptance_tasks ≡ false
    → unmet c'.tasks (task_contract cat r).depends_on ≡ ok []
    → r.state ≡ ready
complete-readies w cat a c c' i r ends found open_state ordinary all_met =
    let (waiting, known, state) =
      IsCurrent-found w.files cat c'.candidate c'.tasks c'.tasks i r
        ((Settled-complete w cat a c).at c' ends) found open_state in
    state
    ∙ ap new_state (
        nothing_left (
          sym known
          ∙ met_dependencies w.files c'.candidate c'.tasks (task_contract cat r) all_met ordinary))
