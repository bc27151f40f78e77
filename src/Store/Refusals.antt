-- ===== src/Store/Refusals.antt =====
-- What a refusal leaves in the store (vp/vpstore.py, `tx` and the verbs that raise in it).
use voice_pod_dispatcher.Prelude.{
  ℕ, String, ◌≡◌, refl, Bool, true, false, Option, none, some, [], ◌∷◌, if◌then◌else◌, arith,
}
use voice_pod_dispatcher.Store.Schema.{Run, Db, Store, Env}
use voice_pod_dispatcher.Store.Tx.{
  Action, Error, refused, Result, ok, err, pure, raise, gets, some_or, do_if, finish, tx, go_on,
  ◌>>=◌,
}
use voice_pod_dispatcher.Store.Log.{
  idem_key, current_run, require_run, event, event_seq, unless_known, new_event, nothing,
}
use voice_pod_dispatcher.Store.Runs.{
  run_init, run_stop, run_inhibit_set, run_inhibit_clear, run_checkpoint, run_resume, run_finish,
  alert, role_add, mark_available,
}
use voice_pod_dispatcher.Store.Packets.{packet_submit, ready_packet, packet_block, escalate}
use voice_pod_dispatcher.Store.Items.{
  assign, assign_body, item_pause, item_resume, item_unblock, item_rebase, item_block,
  item_unassign, item_pin,
}
use voice_pod_dispatcher.Store.Findings.{findings}
use voice_pod_dispatcher.Store.Turns.{turn_start, turn_end}
use voice_pod_dispatcher.Store.Unions.{union_record, union_status, union_cancel}
use voice_pod_dispatcher.Store.Traffic.{violation_record, delivery_status}
use voice_pod_dispatcher.Store.Reviews.{review_as, review_record, proof_request, proof_record}
use voice_pod_dispatcher.Store.Promotions.{promote_commit}
use voice_pod_dispatcher.Store.Commands.{
  Command, do_reserve_delivery, do_msg_log, do_promote_prepare, do_reconcile, do_assign, do_claim,
  do_submit_result, execute, discard,
}

finish_err :
    {A : Type 0} (env : Env) (before : Db) (r : Result A) (s : Store) (e : Error)
    → (finish env before r s).0 ≡ err e
    → (finish env before r s).1.db ≡ before
unfolding finish
finish_err env before (err e') s e h = refl
finish_err env before (ok a) s e h = ground arith

-- An action that raises leaves the database alone.
pub record IsAtomic {A : Type 0} (m : Action A) : Type 0 where
  pub at : (s : Store) (e : Error) → (m s).0 ≡ err e → (m s).1.db ≡ s.db

module _ {A : Type 0} where
  IsAtomic-tx : (env : Env) (m : Action A) → IsAtomic (tx env m)
  unfolding tx
  IsAtomic-tx env m = record {
    at = λ s e h.
        let t : Store = record s { pending = [] } in finish_err env s.db (m t).0 (m t).1 e h;
  }

  IsAtomic-raise : (e : Error) → IsAtomic (raise {A = A} e)
  unfolding raise
  IsAtomic-raise e = record { at = λ s e' h. refl }

  IsAtomic-if :
      (b : Bool) (m n : Action A) → IsAtomic m → IsAtomic n → IsAtomic (if b then m else n)
  IsAtomic-if true m n am an = am
  IsAtomic-if false m n am an = an

  discard_err :
      (r : Result A) (s : Store) (e : Error)
      → (go_on (λ _. pure tt) r s).0 ≡ err e
      → (r ≡ err e) × ((go_on (λ _. pure tt) r s).1 ≡ s)
  unfolding pure
  discard_err (ok a) s e h = cc
  discard_err (err e') s e h = (cc, refl)

  IsAtomic-some_or :
      {B : Type 0} (e : Error) (o : Option A) (f : A → Action B)
      → ((a : A) → IsAtomic (f a))
      → IsAtomic (some_or e o >>= f)
  unfolding ◌>>=◌ some_or raise pure
  IsAtomic-some_or e none f k = record { at = λ s e' h. refl }
  IsAtomic-some_or e (some a) f k = k a

  IsAtomic-discard : (m : Action A) → IsAtomic m → IsAtomic (discard m)
  unfolding discard ◌>>=◌
  IsAtomic-discard m am = record {
    at =
        λ s e h. let (failed, same) = discard_err (m s).0 (m s).1 e h in rw same (am.at s e failed);
  }

ruleset atomic_rules =
    (IsAtomic-tx, IsAtomic-raise, IsAtomic-if, IsAtomic-some_or, IsAtomic-discard)

-- The verbs that are one transaction, or a check before one. The others: `reserve_delivery`,
-- `msg_log` and `promote_prepare` commit a row and raise then, `reconcile` has a transaction for
-- each attempt, and `assign`, `claim` and `submit_result` read the item again after theirs.
abbrev pub IsOneTransaction : Command → Type 0
IsOneTransaction (do_reserve_delivery from to type ref) = ⊥
IsOneTransaction (do_msg_log direction from to type ref sha session result) = ⊥
IsOneTransaction (do_promote_prepare items sha base review proof) = ⊥
IsOneTransaction (do_reconcile p) = ⊥
IsOneTransaction (do_assign item group check) = ⊥
IsOneTransaction (do_claim item role worktree rev) = ⊥
IsOneTransaction (do_submit_result item commit) = ⊥
IsOneTransaction _ = Unit

execute-IsAtomic : (env : Env) (c : Command) → IsOneTransaction c → IsAtomic (execute env c)
unfolding execute run_init run_stop run_inhibit_set run_inhibit_clear run_checkpoint run_resume
    run_finish alert role_add mark_available packet_submit ready_packet packet_block escalate
    item_pause item_resume item_unblock item_rebase item_block item_unassign item_pin findings
    turn_start turn_end union_record union_status union_cancel violation_record delivery_status
    review_as review_record proof_request proof_record promote_commit
execute-IsAtomic env (do_reserve_delivery from to type ref) one = absurd one
execute-IsAtomic env (do_msg_log direction from to type ref sha session result) one = absurd one
execute-IsAtomic env (do_promote_prepare items sha base review proof) one = absurd one
execute-IsAtomic env (do_reconcile p) one = absurd one
execute-IsAtomic env (do_assign item group check) one = absurd one
execute-IsAtomic env (do_claim item role worktree rev) one = absurd one
execute-IsAtomic env (do_submit_result item commit) one = absurd one
execute-IsAtomic env _ one = search atomic_rules depth 8

-- A verb that is one transaction and raises, for whatever reason (a check, an illegal transition, a
-- stale revision, or a file line that cannot be appended), leaves every table as it was.
pub error_changes_nothing :
    (env : Env) (c : Command) (s : Store) (e : Error)
    → IsOneTransaction c
    → (execute env c s).0 ≡ err e
    → (execute env c s).1.db ≡ s.db
error_changes_nothing env c s e one h = (execute-IsAtomic env c one).at s e h

assign_body_stop :
    (env : Env) (item : String) (group : ℕ) (check : Bool) (s : Store) (r : Run)
    → env.stop_file ≡ true
    → current_run s.db ≡ some r
    → ((assign_body env item group check s).0 ≡ err refused)
      × ((assign_body env item group check s).1.db.events
          ≡ new_event env "STOP" (record nothing { item = some item }) s.db ∷ s.db.events)
unfolding assign_body idem_key require_run gets some_or do_if event event_seq unless_known raise
    pure ◌>>=◌
assign_body_stop env item group check s r stop run = rw (stop, run) (refl, refl)

-- `assign` under a STOP file writes a STOP event for the refusal and raises in the same
-- transaction. So the event is rolled back: the verb raises and no table has changed, `event`
-- included.
pub assign_under_stop :
    (env : Env) (item : String) (group : ℕ) (check : Bool) (s : Store) (r : Run)
    → env.stop_file ≡ true
    → current_run s.db ≡ some r
    → ((assign_body env item group check s).1.db.events
        ≡ new_event env "STOP" (record nothing { item = some item }) s.db ∷ s.db.events)
      × ((assign env item group check s).0 ≡ err refused)
      × ((assign env item group check s).1.db ≡ s.db)
unfolding assign tx finish ◌>>=◌
assign_under_stop env item group check s r stop run = (
  (assign_body_stop env item group check s r stop run).1,
  rw (assign_body_stop env item group check (record s { pending = [] }) r stop run).0,
  rw (assign_body_stop env item group check (record s { pending = [] }) r stop run).0,
)
