-- ===== src/Launch/Preserve.antt =====
-- Every command keeps an invariant that meets the interface, and so does every history
-- (ci/control/orchestration_control.py).
use voice_pod_dispatcher.Prelude.{
  ℕ, String, refl, Bool, true, false, not, ◌&&◌, Option, none, some, List, [], ◌∷◌, arith, truthy,
  same_text,
}
use voice_pod_dispatcher.Launch.Check.{Check, ok, err, exit_if}
use voice_pod_dispatcher.Launch.Schema.{state_in, finished_states, Control, Catalog}
use voice_pod_dispatcher.Launch.World.{World}
use voice_pod_dispatcher.Launch.Ensures.{
  Ensures, Ensures-ok, after_value, after_refusal, after_find, Ensures-if,
}
use voice_pod_dispatcher.Launch.Changes.{Change-quiet}
use voice_pod_dispatcher.Launch.Rule.{Rule, Rule-event, Rule-post, Rule-recompute, Rule-announce}
use voice_pod_dispatcher.Launch.ReviewGate.{validate}
use voice_pod_dispatcher.Launch.Rows.{find_task, evidence_of, ensure_catalog}
use voice_pod_dispatcher.Launch.KeepWork.{
  Keeps-start, Keeps-complete, Keeps-adopt, Keeps-instantiate, Keeps-claim,
}
use voice_pod_dispatcher.Launch.KeepRepair.{
  Keeps-block, Keeps-unblock, Keeps-promote, Keeps-rewire, Keeps-retire, Keeps-invalidate,
}
use voice_pod_dispatcher.Launch.Setup.{
  bind_chief, satisfy_gate, activate, drain, bind_controller, list_ready,
}
use voice_pod_dispatcher.Launch.Migrations.{
  allocate, number_for, reuse_or, own_number, fresh_number, exiting,
}
use voice_pod_dispatcher.Launch.Candidates.{
  CandidateArgs, register_candidate, record_review, replace_candidate, with_candidate, tell_chiefs,
  check_packet, is_registered,
}
use voice_pod_dispatcher.Launch.Verify.{verify_state, reconcile}
use voice_pod_dispatcher.Launch.Journal.{new_event, write_event}
use voice_pod_dispatcher.Launch.Schema.{Event, Chief}
use voice_pod_dispatcher.Launch.Rule.{SameTables}
use voice_pod_dispatcher.Launch.Commands.{
  Command, do_bind, do_gate, do_activate, do_drain, do_ready, do_reconcile, do_bind_controller,
  do_instantiate, do_claim, do_start, do_complete, do_adopt, do_block, do_unblock, do_promote,
  do_rewire, do_retire, do_invalidate, do_allocate, do_register, do_record_review, execute, after,
  history,
}

module _ {Q R : Control → Type 0} (rule : Rule Q R) (w : World) (cat : Catalog) where
  Rule-noted :
      (type : String) (c c' : Control) → SameTables c c' → Q c → R (write_event w type none c')
  Rule-noted type c c' same h =
      Rule-event rule w cat type none c' (rule.frame c c' same (rule.weaken c h))

  Keeps-bind :
      (chief thread : String) (c : Control) → Q c → Ensures R (bind_chief w cat chief thread c)
  unfolding bind_chief
  Keeps-bind chief thread c h = after_value (ensure_catalog cat c) _ (λ _ _.
      Ensures-ok _ (Rule-noted _ c _ (record { claims = refl; tasks = refl; migrations = refl }) h))

  Keeps-gate :
      (name evidence : String) (c : Control) → Q c → Ensures R (satisfy_gate w cat name evidence c)
  unfolding satisfy_gate
  Keeps-gate name evidence c h = after_value (ensure_catalog cat c) _ (λ _ _.
      after_refusal _ _ (λ _. after_value (evidence_of w.files evidence) _ (λ _ _.
        Ensures-ok _
          (Rule-noted _ c _ (record { claims = refl; tasks = refl; migrations = refl }) h))))

  Keeps-activate : (c : Control) → Q c → Ensures R (activate w cat c)
  unfolding activate
  Keeps-activate c h = after_value (ensure_catalog cat c) _ (λ _ _. after_refusal _ _ (λ _.
      after_refusal _ _ (λ _.
        Ensures-ok _
          (Rule-noted _ c _ (record { claims = refl; tasks = refl; migrations = refl }) h))))

  Keeps-drain : (c : Control) → Q c → Ensures R (drain w cat c)
  unfolding drain
  Keeps-drain c h = after_value (ensure_catalog cat c) _ (λ _ _.
      Ensures-ok _ (Rule-noted _ c _ (record { claims = refl; tasks = refl; migrations = refl }) h))

  Keeps-bind_controller :
      (thread : String) (c : Control) → Q c → Ensures R (bind_controller w cat thread c)
  unfolding bind_controller
  Keeps-bind_controller thread c h = after_value (ensure_catalog cat c) _ (λ _ _.
      after_refusal _ _ (λ _.
        Ensures-ok _
          (Rule-noted _ c _ (record { claims = refl; tasks = refl; migrations = refl }) h)))

  Keeps-ready : (c : Control) → Q c → Ensures R (list_ready w cat c)
  unfolding list_ready
  Keeps-ready c h =
      after_value (ensure_catalog cat c) _
        (λ _ _. Rule-recompute rule w cat none c (rule.weaken c h))

  Keeps-reconcile : (c : Control) → Q c → Ensures R (reconcile w cat c)
  unfolding reconcile
  Keeps-reconcile c h = after_value (ensure_catalog cat c) _ (λ _ _.
      after_value (verify_state w cat c) _ (λ _ _. after_refusal _ _ (λ _.
        Rule-recompute rule w cat (some (new_event w "STATE_RECONCILED" none c)) _
          (Rule-event rule w cat "STATE_RECONCILED" none c (rule.weaken c h)))))

  Keeps-fresh_number : (i : String) (c : Control) → Q c → R (fresh_number w i c).1
  unfolding fresh_number
  Keeps-fresh_number i c h =
      Rule-event rule w cat "MIGRATION_ALLOCATED" none _ (rule.number w _ i c (omega arith) h)

  Keeps-reuse_or :
      (i : String) (another : Bool) (c : Control) (o : Option ℕ)
      → Q c
      → R (reuse_or w i another c o).1
  unfolding reuse_or
  Keeps-reuse_or i another c none h = Keeps-fresh_number i c h
  Keeps-reuse_or i true c (some n) h = Keeps-fresh_number i c h
  Keeps-reuse_or i false c (some n) h = rule.weaken c h

  Keeps-allocate :
      (i : String) (another : Bool) (c : Control)
      → Q c
      → Ensures (λ x. R x.1) (allocate w cat i another c)
  unfolding allocate number_for
  Keeps-allocate i another c h = after_value (ensure_catalog cat c) _ (λ _ _.
      after_value (exiting (find_task i c)) _ (λ r _.
        after_value (exit_if (state_in r.state finished_states)) _
          (λ _ _. Ensures-ok _ (Keeps-reuse_or i another c (own_number i c.migrations) h))))

  Keeps-tell_chiefs : (e : Event) (hs : List Chief) (c : Control) → R c → R (tell_chiefs e hs c)
  unfolding tell_chiefs
  Keeps-tell_chiefs e [] c h = h
  Keeps-tell_chiefs e (x ∷ hs) c h = Keeps-tell_chiefs e hs _ (Rule-post rule w cat _ _ _ e [] c h)

  Keeps-replace : (a : CandidateArgs) (c : Control) → Q c → Ensures R (replace_candidate w a c)
  unfolding replace_candidate with_candidate
  Keeps-replace a c h =
      after_refusal (truthy c.candidate.sha && not (same_text a.expected_previous c.candidate.sha))
        _
        (λ _. after_refusal _ _ (λ _. Ensures-ok _ (
          Keeps-tell_chiefs (new_event w "CANDIDATE_REGISTERED" none c) c.chiefs _
            (Rule-noted _ c _ (record { claims = refl; tasks = refl; migrations = refl }) h))))

  Keeps-register :
      (a : CandidateArgs) (c : Control) → Q c → Ensures R (register_candidate w cat a c)
  unfolding register_candidate
  Keeps-register a c h = after_value (check_packet w.files a) _ (λ _ _.
      after_value (ensure_catalog cat c) _ (λ _ _. after_refusal _ _ (λ _.
        Ensures-if (is_registered a c.candidate) _ _ (λ _. Ensures-ok c (rule.weaken c h))
          (λ _. Keeps-replace a c h))))

  Keeps-record_review :
      (i verdict role : String) (c : Control)
      → Q c
      → Ensures R (record_review w cat i verdict role c)
  unfolding record_review
  Keeps-record_review i verdict role c h = after_value (ensure_catalog cat c) _ (λ _ _.
      after_find (find_task i c) _ (λ r found.
        after_value (validate w c cat verdict i role) _ (λ v _.
          Rule-announce rule w cat "REVIEW_RECORDED" i _
            (rule.edit i _ r c found (Change-quiet r _ refl refl refl) h))))

  pub Keeps-execute : (x : Command) (c : Control) → Q c → Ensures R (execute w cat x c)
  unfolding execute
  Keeps-execute (do_bind chief thread) = Keeps-bind chief thread
  Keeps-execute (do_gate name evidence) = Keeps-gate name evidence
  Keeps-execute do_activate = Keeps-activate
  Keeps-execute do_drain = Keeps-drain
  Keeps-execute do_ready = Keeps-ready
  Keeps-execute do_reconcile = Keeps-reconcile
  Keeps-execute (do_bind_controller thread) = Keeps-bind_controller thread
  Keeps-execute (do_instantiate a) = Keeps-instantiate rule w cat a
  Keeps-execute (do_claim a) = Keeps-claim rule w cat a
  Keeps-execute (do_start a) = Keeps-start rule w cat a
  Keeps-execute (do_complete a) = Keeps-complete rule w cat a
  Keeps-execute (do_adopt a) = Keeps-adopt rule w cat a
  Keeps-execute (do_block i class reason evidence) = Keeps-block rule w cat i class reason evidence
  Keeps-execute (do_unblock i evidence) = Keeps-unblock rule w cat i evidence
  Keeps-execute (do_promote a) = Keeps-promote rule w cat a
  Keeps-execute (do_rewire i deps) = Keeps-rewire rule w cat i deps
  Keeps-execute (do_retire i reason closers evidence) =
      Keeps-retire rule w cat i reason closers evidence
  Keeps-execute (do_invalidate i reason evidence) = Keeps-invalidate rule w cat i reason evidence
  Keeps-execute (do_allocate i another) = λ c h.
      after_value (allocate w cat i another c) _
        (λ x e. Ensures-ok _ ((Keeps-allocate i another c h).at x e))
  Keeps-execute (do_register a) = Keeps-register a
  Keeps-execute (do_record_review i verdict role) = Keeps-record_review i verdict role

Keeps-after :
    {Q : Control → Type 0} (c : Control) (m : Check Control) → Q c → Ensures Q m → Q (after c m)
Keeps-after c (ok c') h k = k.at c' refl
Keeps-after c (err e) h k = h

pub Keeps-history :
    {Q : Control → Type 0}
    → Rule Q Q
    → (steps : List (World × Catalog × Command)) (c : Control) → Q c
    → Q (history steps c)
unfolding history
Keeps-history rule [] c h = h
Keeps-history rule ((w, cat, x) ∷ steps) c h =
    let before = Keeps-history rule steps c h in
    Keeps-after (history steps c) (execute w cat x (history steps c)) before
      (Keeps-execute rule w cat x (history steps c) before)
