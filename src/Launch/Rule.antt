-- ===== src/Launch/Rule.antt =====
-- The interface between the commands and an invariant of the state: what the invariant has to allow
-- so that every command of ci/control/orchestration_control.py keeps it.
use voice_pod_dispatcher.Prelude.{
  ℕ, ◌<◌, String, ◌≡◌, refl, false, Option, none, some, List, [], ◌∷◌,
}
use voice_pod_dispatcher.Launch.Check.{ok}
use voice_pod_dispatcher.Launch.Schema.{planned, Task, Claim, Event, Control, Catalog}
use voice_pod_dispatcher.Launch.World.{World}
use voice_pod_dispatcher.Launch.Ensures.{Ensures, Ensures-ok, after_value}
use voice_pod_dispatcher.Launch.Life.{Change}
use voice_pod_dispatcher.Launch.Journal.{new_event, write_event, post}
use voice_pod_dispatcher.Launch.Readiness.{
  refresh_rows, recompute_readiness, tell, notify, notify_all, chiefs_of, became_ready,
}
use voice_pod_dispatcher.Launch.Rows.{
  find_task, edit_task, put_claim, release_claim, release_all, announce,
}
use voice_pod_dispatcher.Launch.Claiming.{refuse_conflicts}
use voice_pod_dispatcher.Launch.Work.{add_task}
use voice_pod_dispatcher.Launch.Migrations.{migration_ceiling, add_migration}

-- The tables that the invariants are about.
pub record SameTables (c c' : Control) : Type 0 where
  pub claims : c'.claims ≡ c.claims
  pub tasks : c'.tasks ≡ c.tasks
  pub migrations : c'.migrations ≡ c.migrations

-- `Q` holds before the row of a task is written, and `R` after it.
pub record Rule (Q R : Control → Type 0) : Type 0 where
  pub weaken : (c : Control) → Q c → R c
  -- Events, messages, the phase, chiefs, gates and the candidate.
  pub frame : (c c' : Control) → SameTables c c' → R c → R c'
  pub refreshed :
      (w : World) (cat : Catalog) (c : Control) (rows : List Task)
      → refresh_rows w cat c.candidate [] c.tasks ≡ ok rows
      → R c
      → R (record c { tasks = rows })
  pub edit :
      (i : String) (f : Task → Task) (r : Task) (c : Control)
      → find_task i c ≡ some r
      → Change r (f r)
      → Q c
      → R (edit_task i f c)
  pub add :
      (r : Task) (c : Control)
      → find_task r.task_id c ≡ none
      → r.state ≡ planned
      → r.unlocks_dependents ≡ false
      → Q c
      → R (add_task r c)
  pub put :
      (k : Claim) (c : Control)
      → refuse_conflicts k.paths c.claims ≡ ok tt
      → Q c
      → Q (record c { claims = put_claim k c.claims })
  pub release : (i : String) (c : Control) → R c → R (release_claim i c)
  pub release_every : (i : String) (c : Control) → R c → R (release_all i c)
  pub number :
      (w : World) (n : ℕ) (i : String) (c : Control)
      → migration_ceiling w.files c.migrations < n
      → Q c
      → R (add_migration n i c)

module _ {Q R : Control → Type 0} (rule : Rule Q R) (w : World) (cat : Catalog) where
  pub Rule-event :
      (type : String) (i : Option String) (c : Control) → R c → R (write_event w type i c)
  unfolding write_event
  Rule-event type i c h =
      rule.frame c _ (record { claims = refl; tasks = refl; migrations = refl }) h

  pub Rule-post :
      (type chief id : String) (e : Event) (is : List String) (c : Control)
      → R c
      → R (post type chief id e is c)
  unfolding post
  Rule-post type chief id e is c h =
      rule.frame c _ (record { claims = refl; tasks = refl; migrations = refl }) h

  Rule-notify_all :
      (e : Event) (rows : List Task) (hs : List String) (c : Control)
      → R c
      → R (notify_all e rows hs c)
  unfolding notify_all notify
  Rule-notify_all e rows [] c h = h
  Rule-notify_all e rows (x ∷ hs) c h = Rule-notify_all e rows hs _ (Rule-post _ _ _ e _ c h)

  Rule-tell : (e : Option Event) (rows : List Task) (c : Control) → R c → R (tell e rows c)
  unfolding tell
  Rule-tell none rows c h = h
  Rule-tell (some e) rows c h = Rule-notify_all e rows (chiefs_of rows []) c h

  pub Rule-recompute :
      (e : Option Event) (c : Control) → R c → Ensures R (recompute_readiness w cat e c)
  unfolding recompute_readiness
  Rule-recompute e c h = after_value (refresh_rows w cat c.candidate [] c.tasks) _ (λ rows found.
      Ensures-ok _
        (Rule-tell e (became_ready c.tasks rows) _ (rule.refreshed w cat c rows found h)))

  pub Rule-announce : (type i : String) (c : Control) → R c → Ensures R (announce w cat type i c)
  unfolding announce
  Rule-announce type i c h =
      Rule-recompute (some (new_event w type (some i) c)) _ (Rule-event type (some i) c h)
