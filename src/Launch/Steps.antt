-- ===== src/Launch/Steps.antt =====
-- Each command is one step of the life of every task (ci/control/orchestration_control.py).
use voice_pod_dispatcher.Prelude.{
  String, ◌≡◌, refl, sym, subst, true, some, List, ◌⊎◌, inl, inr, arith, find_row,
}
use voice_pod_dispatcher.Launch.Check.{ok}
use voice_pod_dispatcher.Launch.Schema.{
  TaskState, state_in, unstarted, Task, Candidate, Control, Catalog, Wait,
}
use voice_pod_dispatcher.Launch.World.{World}
use voice_pod_dispatcher.Launch.ReviewGate.{is_task}
use voice_pod_dispatcher.Launch.Readiness.{new_state, dependency_status, task_contract, refresh}
use voice_pod_dispatcher.Launch.Rows.{find_task, edit_task, release_claim, release_all}
use voice_pod_dispatcher.Launch.Work.{add_task}
use voice_pod_dispatcher.Launch.Migrations.{add_migration}
use voice_pod_dispatcher.Launch.Ensures.{Ensures, Ensures-ok, Ensures-if, after_value}
use voice_pod_dispatcher.Launch.Life.{may_follow}
use voice_pod_dispatcher.Launch.Rule.{Rule}
use voice_pod_dispatcher.Launch.Rowwise.{
  RowsBy-refreshed, find_row-RowsBy, find_row-Moves, Moves-update_row, find_row-append,
}
use voice_pod_dispatcher.Launch.Commands.{Command, execute}
use voice_pod_dispatcher.Launch.Preserve.{Keeps-execute}

-- What readiness may do to a state: nothing, or to name an unstarted state anew.
abbrev pub IsReadied : (s t : TaskState) → Type 0
IsReadied s t = (s ≡ t) ⊎ ((state_in s unstarted ≡ true) × (state_in t unstarted ≡ true))

-- One move along the table of the life of a task, and then readiness.
abbrev pub Step : (s t : TaskState) → Type 0
Step s t = (u : TaskState) × (may_follow s u ≡ true) × IsReadied u t

same-may_follow : (s : TaskState) → may_follow s s ≡ true
unfolding may_follow
same-may_follow s = ground arith

IsReadied-join : (s t u : TaskState) → IsReadied s t → IsReadied t u → IsReadied s u
IsReadied-join s t u (inl e) h = subst (λ x. IsReadied x u) (sym e) h
IsReadied-join s t u (inr h) (inl e) = subst (IsReadied s) e (inr h)
IsReadied-join s t u (inr (from, _)) (inr (_, to)) = inr (from, to)

abbrev IsReadiedRow : Task → Task → Type 0
IsReadiedRow r r' = (r'.task_id ≡ r.task_id) × IsReadied r.state r'.state

unstarted-new_state : (waiting : List Wait) → state_in (new_state waiting) unstarted ≡ true
unstarted-new_state waiting = ground arith

refresh-IsReadied :
    (w : World) (cat : Catalog) (k : Candidate) (tasks : List Task) (r : Task)
    → Ensures (IsReadiedRow r) (refresh w cat k tasks r)
unfolding refresh
refresh-IsReadied w cat k tasks r =
    Ensures-if (state_in r.state unstarted) _ _
      (λ e.
        after_value (dependency_status w.files k tasks (task_contract cat r)) _
          (λ waiting _. Ensures-ok _ (refl, inr (e, unstarted-new_state waiting))))
      (λ _. Ensures-ok r (refl, inl refl))

module _ (i : String) (s : TaskState) where
  abbrev IsAt : List Task → Type 0
  IsAt rows = (r : Task) × (find_row (is_task i) rows ≡ some r) × (r.state ≡ s)

  abbrev IsStepped : List Task → Type 0
  IsStepped rows = (r : Task) × (find_row (is_task i) rows ≡ some r) × Step s r.state

  IsStepped-frame : (rows rows' : List Task) → rows' ≡ rows → IsStepped rows → IsStepped rows'
  IsStepped-frame rows rows' same h = subst IsStepped (sym same) h

  not_moved : (r : Task) → r.state ≡ s → Step s r.state
  not_moved r at_s = (s, same-may_follow s, inl (sym at_s))

  step_rule : Rule (λ c. IsAt c.tasks) (λ c. IsStepped c.tasks)
  unfolding edit_task add_task release_claim release_all add_migration find_task
  step_rule = record {
    weaken = λ c h. let (r, found, at_s) = h in (r, found, not_moved r at_s);
    frame = λ c c' same h. IsStepped-frame c.tasks c'.tasks same.tasks h;
    refreshed = λ w cat c rows e h.
        let (r, found, step) = h in
        let (u, legal, readied) = step in
        let (r', found', change) =
          find_row-RowsBy IsReadiedRow (λ _ _ x. x.0) i c.tasks rows r
            (RowsBy-refreshed IsReadiedRow w cat c.candidate (refresh-IsReadied w cat c.candidate)
              c.tasks rows e)
            found in
        (r', found', (u, legal, IsReadied-join u r.state r'.state readied change.1));
    edit = λ j f r c e change h.
        let (x, found, at_s) = h in
        let (r', found', moved) =
          find_row-Moves i c.tasks _ x (Moves-update_row j f r c.tasks e change) found in
        (
          r',
          found',
          (r'.state, subst (λ z. may_follow z r'.state ≡ true) at_s moved.legal, inl refl),
        );
    add = λ x c e e' e'' h.
        let (r, found, at_s) = h in
        (r, find_row-append (is_task i) c.tasks x r found, not_moved r at_s);
    put = λ k c e h. h;
    release = λ j c h. h;
    release_every = λ j c h. h;
    number = λ w n j c e h. let (r, found, at_s) = h in (r, found, not_moved r at_s);
  }

-- A command that ends well is one step of the life of each task that had a row: the task keeps a
-- row, its state has moved along the table at most once, and only readiness has changed it after
-- that, from one of the three unstarted states to one of them.
pub execute-Step :
    (w : World) (cat : Catalog) (x : Command) (c c' : Control) (i : String) (r : Task)
    → find_row (is_task i) c.tasks ≡ some r
    → execute w cat x c ≡ ok c'
    → (r' : Task) × (find_row (is_task i) c'.tasks ≡ some r') × Step r.state r'.state
execute-Step w cat x c c' i r found e =
    (Keeps-execute (step_rule i r.state) w cat x c (r, found, refl)).at c' e
