-- ===== src/Launch/Changes.antt =====
-- What each command writes into a row is a change that the life of a task allows
-- (ci/control/orchestration_control.py).
use voice_pod_dispatcher.Prelude.{
  String, ◌≡◌, refl, true, false, not, ◌&&◌, ◌||◌, ◌⊎◌, List, [], ◌∷◌, arith, inl, inr,
}
use voice_pod_dispatcher.Launch.Schema.{
  TaskState, ready, claimed, blocked, verified, repair_required, same_state, state_in,
  active_states, finished_states, unstarted, accepted, outcome_state, Evidence, Task,
}
use voice_pod_dispatcher.Launch.World.{World}
use voice_pod_dispatcher.Launch.Life.{may_follow, Change}
use voice_pod_dispatcher.Launch.Claiming.{ClaimArgs, claimed_row}
use voice_pod_dispatcher.Launch.Repair.{
  PromoteArgs, blocked_row, unblocked_row, promoted_row, retired_row, retirable,
}
use voice_pod_dispatcher.Launch.Contamination.{invalid_row, invalidatable}
use voice_pod_dispatcher.Launch.ReviewGate.{is_text}
use voice_pod_dispatcher.Launch.Rows.{is_running}
use voice_pod_dispatcher.Launch.Work.{ResultArgs, with_result, StartArgs, started}

module _ (w : World) where
  Change-result :
      (a : ResultArgs) (evidence : List Evidence) (r r' : Task)
      → r'.task_id ≡ r.task_id
      → state_in r.state unstarted || state_in r.state active_states ≡ true
      → a.unlock_dependents && not (state_in (outcome_state a.outcome) accepted) ≡ false
      → Change r (with_result w a evidence r')
  unfolding with_result may_follow
  Change-result a evidence r r' same from honest = record {
    same_id = same;
    legal = ground arith;
    sound = λ _ u. ground arith;
  }

  pub Change-completed :
      (a : ResultArgs) (evidence : List Evidence) (r r' : Task)
      → r'.task_id ≡ r.task_id
      → not (state_in r.state active_states) || not (is_text r.attempt_id a.attempt_id) ≡ false
      → a.unlock_dependents && not (state_in (outcome_state a.outcome) accepted) ≡ false
      → Change r (with_result w a evidence r')
  Change-completed a evidence r r' same from = Change-result a evidence r r' same (ground arith)

  pub Change-adopted :
      (a : ResultArgs) (evidence : List Evidence) (r r' : Task)
      → r'.task_id ≡ r.task_id
      → not (state_in r.state unstarted) ≡ false
      → a.unlock_dependents && not (state_in (outcome_state a.outcome) accepted) ≡ false
      → Change r (with_result w a evidence r')
  Change-adopted a evidence r r' same from = Change-result a evidence r r' same (ground arith)

  pub Change-started :
      (a : StartArgs) (r : Task)
      → not (same_state r.state claimed) || not (is_text r.attempt_id a.attempt_id) ≡ false
      → Change r (started w a r)
  unfolding may_follow
  Change-started a r e = record {
    same_id = refl;
    legal = ground arith;
    sound = λ s u. ground (arith, s u);
  }

  pub Change-claimed :
      (a : ClaimArgs) (paths : List String) (r : Task)
      → not (same_state r.state ready) ≡ false
      → Change r (claimed_row w a paths r)
  unfolding may_follow claimed_row
  Change-claimed a paths r e = record {
    same_id = refl;
    legal = ground arith;
    sound = λ s u. ground (arith, s u);
  }

  pub Change-blocked :
      (class reason : String) (r : Task)
      → is_running r ≡ false
      → state_in r.state finished_states && not (same_state r.state blocked) ≡ false
      → Change r (blocked_row w class reason r)
  unfolding may_follow
  Change-blocked class reason r e e' = record {
    same_id = refl;
    legal = ground arith;
    sound = λ s u. ground (arith, s u);
  }

  pub Change-unblocked :
      (r : Task) → not (same_state r.state blocked) ≡ false → Change r (unblocked_row w r)
  unfolding may_follow
  Change-unblocked r e = record {
    same_id = refl;
    legal = ground arith;
    sound = λ s u. ground (arith, s u);
  }

  pub Change-promoted :
      (a : PromoteArgs) (evidence : List Evidence) (r r' : Task)
      → r'.task_id ≡ r.task_id
      → not (state_in r.state (verified ∷ repair_required ∷ [])) ≡ false
      → Change r (promoted_row w a evidence r')
  unfolding may_follow promoted_row
  Change-promoted a evidence r r' same e = record {
    same_id = same;
    legal = ground arith;
    sound = λ s u. refl;
  }

  pub Change-retired :
      (reason : String) (r : Task)
      → not (state_in r.state retirable) ≡ false
      → Change r (retired_row w reason r)
  unfolding may_follow
  Change-retired reason r e = record {
    same_id = refl;
    legal = ground arith;
    sound = λ s u. ground (arith, s u);
  }

  pub Change-invalid :
      (class reason : String) (r : Task)
      → (same_state r.state verified ≡ true) ⊎ (not (state_in r.state invalidatable) ≡ false)
      → Change r (invalid_row w class reason r)
  unfolding may_follow
  Change-invalid class reason r (inl e) = record {
    same_id = refl;
    legal = ground arith;
    sound = λ s u. ground arith;
  }
  Change-invalid class reason r (inr e) = record {
    same_id = refl;
    legal = ground arith;
    sound = λ s u. ground arith;
  }

may_follow_refl : (s : TaskState) → may_follow s s ≡ true
unfolding may_follow
may_follow_refl s = ground arith

-- A change that leaves the id, the state and what others may build on.
pub Change-quiet :
    (r r' : Task)
    → r'.task_id ≡ r.task_id
    → r'.state ≡ r.state
    → r'.unlocks_dependents ≡ r.unlocks_dependents
    → Change r r'
Change-quiet r r' id state unlocks = record {
  same_id = id;
  legal = rw state (may_follow_refl r.state);
  sound = rw (state, unlocks) (λ s u. s u);
}
