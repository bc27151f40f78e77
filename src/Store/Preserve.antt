-- ===== src/Store/Preserve.antt =====
-- Every verb keeps an invariant that meets the interface, and so does every history
-- (vp/vpstore.py).
use voice_pod_dispatcher.Prelude.{
  ℕ, String, ◌≡◌, refl, Bool, Option, none, some, List, [], ◌∷◌, inl, inr, Bool-cases, Option-cases,
  arith, true, update_row, find_row,
}
use voice_pod_dispatcher.Store.Status.{Status}
use voice_pod_dispatcher.Store.Schema.{
  Db, Env, Store, Item, Attempt, Subject, plan, code, Verdict, accepted, findings_found,
  refused_outright, Promotion, Reason,
}
use voice_pod_dispatcher.Store.Tx.{pure, raise, gets, raise_if, do_if, some_or, ◌>>=◌, ◌>>◌}
use voice_pod_dispatcher.Store.Log.{write, edited, bump_counter, next_id, counters, event, nothing}
use voice_pod_dispatcher.Store.ItemRows.{
  named, find_item, insert_item, update_item, union_cancel_from, back_to_preparing, last_submitted,
  restored,
}
use voice_pod_dispatcher.Store.Keeps.{Keeps, Keeps-pure, Keeps-raise, Keeps-bind, keeps_rules}
use voice_pod_dispatcher.Store.Rule.{
  Rule, with_items, Keeps-write, Keeps-next_id, Keeps-require_run, Keeps-get_item, Keeps-touch_item,
  Keeps-event, Keeps-event_seq, Keeps-set_item,
}
use voice_pod_dispatcher.Store.Runs.{
  set_run, run_init, run_stop, run_inhibit_set, run_inhibit_clear, run_checkpoint, run_resume,
  run_finish, alert, role_add, mark_available,
}
use voice_pod_dispatcher.Store.Packets.{
  new_item, ensure_item, packet_submit, ready_packet, packet_block, escalate,
}
use voice_pod_dispatcher.Store.Items.{
  assign, claim, item_pause, item_resume, item_unblock, item_rebase, item_block, item_unassign,
  item_pin, submit_result,
}
use voice_pod_dispatcher.Store.Findings.{satisfy, charge_round, settle, findings}
use voice_pod_dispatcher.Store.Turns.{
  runs_for, is_attempt, is_live, open_attempt, start_attempt, new_attempt, turn_start, end_attempt,
  turn_end, lose_attempt, orphan, reconcile,
}
use voice_pod_dispatcher.Store.Unions.{
  resets, reset_row, reset_item, reset_items, union_record, union_status, union_cancel,
}
use voice_pod_dispatcher.Store.Traffic.{
  reserve_row, out_of_matrix, write_delivery, raise_or, record_violation, violation_record,
  reserve_delivery, delivery_status, msg_log,
}
use voice_pod_dispatcher.Store.Reviews.{
  admit_review, block_after_review, move_after_review, review_as, review_record, apply_move,
  proof_request, proof_record,
}
use voice_pod_dispatcher.Store.Promotions.{
  write_promotion, promote_prepare, commit_rows, reconcile_row, commit_or_reconcile, promote_commit,
}
use voice_pod_dispatcher.Store.Commands.{Command, do_run_init, execute, history}

ruleset rules = (
  keeps_rules, Keeps-write, Keeps-next_id, Keeps-require_run, Keeps-get_item, Keeps-touch_item,
  Keeps-event, Keeps-event_seq, Keeps-set_item, tt,
)

leaves_union : (uid : String) (r : Item) → resets uid r ≡ true → union_cancel_from r.status ≡ true
unfolding resets
leaves_union uid r t = ground arith

module _ {Q : Db → Type 0} (rule : Rule Q) (env : Env) where
  Keeps-ensure_item : (item base : String) → Keeps Q (ensure_item env item base)
  unfolding ensure_item ◌>>=◌ gets do_if pure insert_item
  Keeps-ensure_item item base = record {
    at = λ s h. elim (Option-cases (find_item item s.db.items)) [
      | inl e ↦ rw e (rule.insert (new_item item base env.now) s.db e refl h)
      | inr (r, e) ↦ rw e h
    ];
  }

  Keeps-open_attempt :
      (item kind : String) (session server model : Option String) (pid driver : Option ℕ)
      (runner : Option String) (s : Store)
      → find_row (runs_for item) s.db.attempts ≡ none
      → Q s.db
      → Q (open_attempt env item kind session server model pid driver runner s).1.db
  unfolding open_attempt next_id new_attempt edited ◌>>=◌ gets pure write
  Keeps-open_attempt item kind session server model pid driver runner s free h =
      let counted : Db = edited (counters (bump_counter "attempt")) s.db in
      rule.start _ counted free (rule.edit (counters (bump_counter "attempt")) tt s.db h)

  Keeps-start_attempt :
      (item kind : String) (session server model : Option String) (pid driver : Option ℕ)
      (runner : Option String)
      → Keeps Q (start_attempt env item kind session server model pid driver runner)
  unfolding start_attempt ◌>>=◌ gets raise_if raise pure
  Keeps-start_attempt item kind session server model pid driver runner = record {
    at = λ s h. elim (Option-cases (find_row (runs_for item) s.db.attempts)) [
      | inl e ↦ rw e (Keeps-open_attempt item kind session server model pid driver runner s e h)
      | inr (a, e) ↦ rw e h
    ];
  }

  Keeps-end_attempt :
      (i status : String) (result detail session : Option String)
      → Keeps Q (end_attempt env i status result detail session)
  unfolding end_attempt ◌>>=◌ gets some_or raise_if raise pure write
  Keeps-end_attempt i status result detail session = record {
    at = λ s h. elim (Option-cases (find_row (is_attempt i) s.db.attempts)) [
      | inl e ↦ rw e h
      | inr (a, e) ↦ rw e (elim (Bool-cases (is_live a)) [
        | inl live ↦ rw live (rule.end i status result detail session env.now a s.db e live h)
        | inr over ↦ rw over h
      ])
    ];
  }

  Keeps-lose_attempt : (a : Attempt) → Keeps Q (lose_attempt env a)
  unfolding lose_attempt write
  Keeps-lose_attempt a = record { at = λ s h. rule.lose a.attempt_id env.now s.db h }

  Keeps-reset_item : (uid it : String) → Keeps Q (reset_item env uid it)
  unfolding reset_item reset_row ◌>>=◌ gets pure update_item
  Keeps-reset_item uid it = record {
    at = λ s h. elim (Option-cases (find_item it s.db.items)) [
      | inl e ↦ rw e h
      | inr (r, e) ↦ rw e (elim (Bool-cases (resets uid r)) [
        | inl t ↦ rw t (
            let candidate : Option String =
              restored (last_submitted it s.db.events) r.candidate_sha in
            let back : Db =
              with_items (update_row (named it) (back_to_preparing candidate env.now)) s.db in
            let told : Keeps Q (do
              event env "UNION_CANCELLED" (record nothing { item = some it; ref = some uid })
              pure (it ∷ [])) =
              Keeps-bind _ _ (Keeps-event rule env _ _) (λ _. Keeps-pure _) in
            told.at (record s { db = back })
              (rule.cancel it candidate env.now r s.db e (leaves_union uid r t) h))
        | inr f ↦ rw f h
      ])
    ];
  }

  Keeps-reset_items : (uid : String) (items : List String) → Keeps Q (reset_items env uid items)
  unfolding reset_items
  Keeps-reset_items uid [] = Keeps-pure []
  Keeps-reset_items uid (it ∷ rest) =
      Keeps-bind _ _ (Keeps-reset_item uid it)
        (λ _. Keeps-bind _ _ (Keeps-reset_items uid rest) (λ _. Keeps-pure _))

  Keeps-raise_or : {A : Type 0} (o : Option A) → Keeps Q (raise_or o)
  unfolding raise_or
  Keeps-raise_or none = Keeps-raise _
  Keeps-raise_or (some a) = Keeps-pure a

  Keeps-admit_review :
      (subject : Subject) (row : Item) (candidate : String) (ref : Option String)
      → Keeps Q (admit_review env subject row candidate ref)
  unfolding admit_review
  Keeps-admit_review plan row candidate ref = search (rules) depth 12
  Keeps-admit_review code row candidate ref = search (rules) depth 12

  Keeps-move_after_review :
      (subject : Subject) (v : Verdict) (row : Item) (role rid : String)
      → Keeps Q (move_after_review env subject v row role rid)
  unfolding move_after_review block_after_review
  Keeps-move_after_review plan accepted row role rid = search (rules) depth 12
  Keeps-move_after_review plan findings_found row role rid = search (rules) depth 12
  Keeps-move_after_review plan refused_outright row role rid = search (rules) depth 12
  Keeps-move_after_review code accepted row role rid = search (rules) depth 12
  Keeps-move_after_review code findings_found row role rid = search (rules) depth 12
  Keeps-move_after_review code refused_outright row role rid = search (rules) depth 12

  Keeps-apply_move :
      (i : String) (failed : Bool) (item : String) (st : Option Status)
      → Keeps Q (apply_move env i failed item st)
  unfolding apply_move
  Keeps-apply_move i failed item none = Keeps-pure tt
  Keeps-apply_move i failed item (some st) = search (rules) depth 12

  Keeps-write_promotion :
      (items : List String) (sha base review proof : String) (o : Option Reason)
      → Keeps Q (write_promotion env items sha base review proof o)
  unfolding write_promotion
  Keeps-write_promotion items sha base review proof none = search (rules) depth 12
  Keeps-write_promotion items sha base review proof (some reason) = search (rules) depth 12

  Keeps-commit_or_reconcile :
      (p : Promotion) (expected : String) (actual : Option String)
      → Keeps Q (commit_or_reconcile env p expected actual)
  unfolding commit_or_reconcile commit_rows reconcile_row
  Keeps-commit_or_reconcile p expected none = search (rules) depth 12
  Keeps-commit_or_reconcile p expected (some actual) = search (rules) depth 12

  ruleset parts = (
    rules, Keeps-ensure_item, Keeps-start_attempt, Keeps-end_attempt, Keeps-lose_attempt,
    Keeps-reset_items, Keeps-raise_or, Keeps-admit_review, Keeps-move_after_review,
    Keeps-apply_move, Keeps-write_promotion, Keeps-commit_or_reconcile,
  )

  pub execute-Keeps : (c : Command) → Keeps Q (execute env c)
  unfolding execute set_run run_init run_stop run_inhibit_set run_inhibit_clear run_checkpoint
      run_resume run_finish alert role_add mark_available packet_submit ready_packet packet_block
      escalate assign claim item_pause item_resume item_unblock item_rebase item_block item_unassign
      item_pin submit_result findings settle satisfy charge_round turn_start turn_end orphan
      reconcile union_record union_status union_cancel record_violation violation_record
      reserve_delivery reserve_row out_of_matrix write_delivery delivery_status msg_log review_as
      review_record proof_request proof_record promote_prepare promote_commit
  execute-Keeps (do_run_init i head) = search parts depth 14
  execute-Keeps _ = search parts depth 14

pub history-keeps :
    {Q : Db → Type 0} (rule : Rule Q) (steps : List (Env × Command)) (s : Store)
    → Q s.db
    → Q (history steps s).db
unfolding history
history-keeps rule [] s h = h
history-keeps rule ((env, c) ∷ rest) s h =
    history-keeps rule rest (execute env c s).1 ((execute-Keeps rule env c).at s h)
