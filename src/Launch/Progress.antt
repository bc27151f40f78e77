-- ===== src/Launch/Progress.antt =====
-- The life of a task over histories of commands (ci/control/orchestration_control.py).
use voice_pod_dispatcher.Prelude.{
  String, ◌≡◌, refl, sym, ◌∙◌, subst, true, some, List, [], ◌∷◌, ◌⊎◌, inl, inr, arith, find_row,
}
use voice_pod_dispatcher.Launch.Schema.{
  TaskState, verified, integrated, cancelled, invalid_evidence, state_in, Task, Control, Catalog,
}
use voice_pod_dispatcher.Launch.World.{World}
use voice_pod_dispatcher.Launch.ReviewGate.{is_task}
use voice_pod_dispatcher.Launch.Rows.{find_task, edit_task, release_claim, release_all}
use voice_pod_dispatcher.Launch.Work.{add_task}
use voice_pod_dispatcher.Launch.Migrations.{add_migration}
use voice_pod_dispatcher.Launch.Life.{Reaches, here, next, may_follow}
use voice_pod_dispatcher.Launch.Rule.{Rule}
use voice_pod_dispatcher.Launch.Rowwise.{
  Moves, Moves-refreshed, Moves-update_row, find_row-Moves, find_row-append, AllSound,
  AllSound-Moves, AllSound-append,
}
use voice_pod_dispatcher.Launch.Commands.{Command, history}
use voice_pod_dispatcher.Launch.Preserve.{Keeps-history}

module _ (i : String) (s : TaskState) where
  -- The task has a row, in a state that can be reached from `s`.
  abbrev pub IsOnWay : List Task → Type 0
  IsOnWay rows = (r : Task) × (find_row (is_task i) rows ≡ some r) × Reaches s r.state

  IsOnWay-Moves : (rs rs' : List Task) → Moves rs rs' → IsOnWay rs → IsOnWay rs'
  IsOnWay-Moves rs rs' moves (r, found, way) =
      let (r', found', change) = find_row-Moves i rs rs' r moves found in
      (r', found', next way change.legal)

  way_rule : Rule (λ c. IsOnWay c.tasks) (λ c. IsOnWay c.tasks)
  unfolding edit_task add_task release_claim release_all add_migration find_task
  way_rule = record {
    weaken = λ c h. h;
    frame = λ c c' same h. subst IsOnWay (sym same.tasks) h;
    refreshed = λ w cat c rows e h.
        IsOnWay-Moves c.tasks rows (Moves-refreshed w cat c.candidate c.tasks rows e) h;
    edit =
        λ j f r c e change h. IsOnWay-Moves c.tasks _ (Moves-update_row j f r c.tasks e change) h;
    add = λ x c e e' e'' h.
        let (r, found, way) = h in (r, find_row-append (is_task i) c.tasks x r found, way);
    put = λ k c e h. h;
    release = λ j c h. h;
    release_every = λ j c h. h;
    number = λ w n j c e h. h;
  }

-- Through every history a task that has a row keeps one.
history-Reaches :
    (steps : List (World × Catalog × Command)) (c : Control) (i : String) (r : Task)
    → find_row (is_task i) c.tasks ≡ some r
    → (r' : Task) × (find_row (is_task i) (history steps c).tasks ≡ some r')
      × Reaches r.state r'.state
history-Reaches steps c i r found = Keeps-history (way_rule i r.state) steps c (r, found, here)

follows_integrated : (t : TaskState) → may_follow integrated t ≡ true → t ≡ integrated
unfolding may_follow
follows_integrated t e = ground arith

follows_cancelled : (t : TaskState) → may_follow cancelled t ≡ true → t ≡ cancelled
unfolding may_follow
follows_cancelled t e = ground arith

Reaches-integrated : {s t : TaskState} → s ≡ integrated → Reaches s t → t ≡ integrated
Reaches-integrated e here = e
Reaches-integrated e (next {t = x} {u = y} way legal) =
    follows_integrated y (subst (λ z. may_follow z y ≡ true) (Reaches-integrated e way) legal)

Reaches-cancelled : {s t : TaskState} → s ≡ cancelled → Reaches s t → t ≡ cancelled
Reaches-cancelled e here = e
Reaches-cancelled e (next {t = x} {u = y} way legal) =
    follows_cancelled y (subst (λ z. may_follow z y ≡ true) (Reaches-cancelled e way) legal)

-- A task that is INTEGRATED or CANCELLED stays so through every history.
pub history_ends :
    (steps : List (World × Catalog × Command)) (c : Control) (i : String) (r : Task)
    → find_row (is_task i) c.tasks ≡ some r
    → (r.state ≡ integrated) ⊎ (r.state ≡ cancelled)
    → (r' : Task) × (find_row (is_task i) (history steps c).tasks ≡ some r') × (r'.state ≡ r.state)
history_ends steps c i r found ends =
    let (r', found', way) = history-Reaches steps c i r found in
    (
      r',
      found',
      elim ends [
        | inl e ↦ Reaches-integrated e way ∙ sym e
        | inr e ↦ Reaches-cancelled e way ∙ sym e
      ],
    )

-- The states after acceptance: accepted, found invalid, or retired after that.
abbrev pub settled : List TaskState
settled = verified ∷ integrated ∷ invalid_evidence ∷ cancelled ∷ []

follows_settled :
    (s t : TaskState)
    → state_in s settled ≡ true
    → may_follow s t ≡ true
    → state_in t settled ≡ true
unfolding may_follow
follows_settled s t e m = ground arith

Reaches-settled :
    {s t : TaskState} → state_in s settled ≡ true → Reaches s t → state_in t settled ≡ true
Reaches-settled e here = e
Reaches-settled e (next {t = x} {u = y} way legal) =
    follows_settled x y (Reaches-settled e way) legal

-- A task that was VERIFIED is never worked on again: through every history it is VERIFIED,
-- INTEGRATED, INVALID_EVIDENCE or CANCELLED.
pub history-settled :
    (steps : List (World × Catalog × Command)) (c : Control) (i : String) (r : Task)
    → find_row (is_task i) c.tasks ≡ some r
    → r.state ≡ verified
    → (r' : Task) × (find_row (is_task i) (history steps c).tasks ≡ some r')
      × (state_in r'.state settled ≡ true)
history-settled steps c i r found e =
    let (r', found', way) = history-Reaches steps c i r found in
    (r', found', Reaches-settled (rw e refl) way)

sound_rule : Rule (λ c. AllSound c.tasks) (λ c. AllSound c.tasks)
unfolding edit_task add_task release_claim release_all add_migration find_task
sound_rule = record {
  weaken = λ c h. h;
  frame = λ c c' same h. subst AllSound (sym same.tasks) h;
  refreshed = λ w cat c rows e h.
      AllSound-Moves c.tasks rows (Moves-refreshed w cat c.candidate c.tasks rows e) h;
  edit = λ j f r c e change h. AllSound-Moves c.tasks _ (Moves-update_row j f r c.tasks e change) h;
  add = λ x c e e' e'' h. AllSound-append c.tasks x h (λ u. absurd (ground arith));
  put = λ k c e h. h;
  release = λ j c h. h;
  release_every = λ j c h. h;
  number = λ w n j c e h. h;
}

-- If on a state only tasks that are VERIFIED or INTEGRATED unlock their dependants, then so it is
-- after every history of commands.
pub history-AllSound :
    (steps : List (World × Catalog × Command)) (c : Control)
    → AllSound c.tasks
    → AllSound (history steps c).tasks
history-AllSound steps c h = Keeps-history sound_rule steps c h
