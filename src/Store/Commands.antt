-- ===== src/Store/Commands.antt =====
-- vp/vpstore.py: the verbs of the store as one type, and what a client can do to it: a history.
use voice_pod_dispatcher.Prelude.{ℕ, String, Bool, Option, List, [], ◌∷◌}
use voice_pod_dispatcher.Store.Status.{Status}
use voice_pod_dispatcher.Store.Schema.{ProofStatus, Store, Env}
use voice_pod_dispatcher.Store.Tx.{Action, pure, ◌>>◌}
use voice_pod_dispatcher.Store.Runs.{
  run_init, run_stop, run_inhibit_set, run_inhibit_clear, run_checkpoint, run_resume, run_finish,
  alert, role_add, mark_available,
}
use voice_pod_dispatcher.Store.Packets.{packet_submit, ready_packet, packet_block, escalate}
use voice_pod_dispatcher.Store.Items.{
  assign, claim, item_pause, item_resume, item_unblock, item_rebase, item_block, item_unassign,
  item_pin, submit_result,
}
use voice_pod_dispatcher.Store.Findings.{FindingsDoc, findings}
use voice_pod_dispatcher.Store.Turns.{Processes, turn_start, turn_end, reconcile}
use voice_pod_dispatcher.Store.Unions.{union_record, union_status, union_cancel}
use voice_pod_dispatcher.Store.Traffic.{
  violation_record, reserve_delivery, delivery_status, msg_log,
}
use voice_pod_dispatcher.Store.Reviews.{review_record, proof_request, proof_record}
use voice_pod_dispatcher.Store.Promotions.{promote_prepare, promote_commit}

-- A constructor for each method that writes, with the arguments of the method.
pub data Command : Type 0 where
  do_run_init : String → Option String → Command
  do_run_stop do_run_inhibit_set do_run_inhibit_clear do_run_resume do_run_finish : Command
  do_run_checkpoint : String → Command
  do_alert : String → String → Option String → Command
  do_role_add : String → String → Option String → Option String → Option String → Option ℕ → Command
  do_mark_available : String → Command
  do_packet_submit :
      String → String → String → String → Option String → Bool → List String → Command
  do_packet_ready do_packet_block : String → Command
  do_escalate : String → String → Option String → Command
  do_assign : String → ℕ → Bool → Command
  do_claim : String → String → String → Option ℕ → Command
  do_item_pause : String → Option String → Command
  do_item_resume do_item_unassign : String → Command
  do_item_unblock : String → Option String → Status → Command
  do_item_rebase do_item_block do_item_pin do_submit_result : String → String → Command
  do_findings : String → FindingsDoc → Bool → Command
  do_turn_start :
      String
      → String
      → Option String
      → Option String
      → Option String
      → Option ℕ
      → Option ℕ
      → Option String
      → Command
  do_turn_end : String → String → Option String → Option String → Option String → Command
  do_reconcile : Processes → Command
  do_union_record :
      List String → String → String → Option String → Option String → Option String → Command
  do_union_status : String → String → Option String → Command
  do_union_cancel : String → String → Command
  do_violation_record : String → String → String → Command
  do_reserve_delivery : String → String → String → Option String → Command
  do_delivery_status : String → String → Option String → Command
  do_msg_log :
      String
      → String
      → String
      → String
      → Option String
      → Option String
      → Option String
      → Option String
      → Command
  do_review_record :
      String → String → String → String → String → Option String → String → Option String → Command
  do_proof_request : String → String → String → String → Command
  do_proof_record :
      String → ProofStatus → Option String → Option String → Option String → Option String → Command
  do_promote_prepare : List String → String → String → String → String → Command
  do_promote_commit : String → String → Option String → Command

unfoldable pub discard : {A : Type 0} → Action A → Action (Unit {0})
discard m = do m; pure tt

unfoldable pub execute : Env → Command → Action (Unit {0})
unfolding discard
execute env (do_run_init i head) = discard (run_init env i head)
execute env do_run_stop = discard (run_stop env)
execute env do_run_inhibit_set = discard (run_inhibit_set env)
execute env do_run_inhibit_clear = discard (run_inhibit_clear env)
execute env do_run_resume = discard (run_resume env)
execute env do_run_finish = discard (run_finish env)
execute env (do_run_checkpoint role) = discard (run_checkpoint env role)
execute env (do_alert kind text item) = discard (alert env kind text item)
execute env (do_role_add i kind session model server group) =
    discard (role_add env i kind session model server group)
execute env (do_mark_available i) = discard (mark_available env i)
execute env (do_packet_submit item benchmark packet base by critical files) =
    discard (packet_submit env item benchmark packet base by critical files)
execute env (do_packet_ready i) = discard (ready_packet env i)
execute env (do_packet_block i) = discard (packet_block env i)
execute env (do_escalate kind item attempt) = discard (escalate env kind item attempt)
execute env (do_assign item group check) = discard (assign env item group check)
execute env (do_claim item role worktree rev) = discard (claim env item role worktree rev)
execute env (do_item_pause item why) = discard (item_pause env item why)
execute env (do_item_resume item) = discard (item_resume env item)
execute env (do_item_unassign item) = discard (item_unassign env item)
execute env (do_item_unblock item why to) = discard (item_unblock env item why to)
execute env (do_item_rebase item base) = discard (item_rebase env item base)
execute env (do_item_block item why) = discard (item_block env item why)
execute env (do_item_pin item server) = discard (item_pin env item server)
execute env (do_submit_result item commit) = discard (submit_result env item commit)
execute env (do_findings item doc unverified) = discard (findings env item doc unverified)
execute env (do_turn_start item kind session server model pid driver runner) =
    discard (turn_start env item kind session server model pid driver runner)
execute env (do_turn_end i status result detail session) =
    discard (turn_end env i status result detail session)
execute env (do_reconcile p) = discard (reconcile env p)
execute env (do_union_record items sha base worktree branch why) =
    discard (union_record env items sha base worktree branch why)
execute env (do_union_status i status why) = discard (union_status env i status why)
execute env (do_union_cancel i cause) = discard (union_cancel env i cause)
execute env (do_violation_record kind from to) = discard (violation_record env kind from to)
execute env (do_reserve_delivery from to type ref) = discard (reserve_delivery env from to type ref)
execute env (do_delivery_status i status digest) = discard (delivery_status env i status digest)
execute env (do_msg_log direction from to type ref sha session result) =
    discard (msg_log env direction from to type ref sha session result)
execute env (do_review_record item subject base candidate role ref verdict document) =
    discard (review_record env item subject base candidate role ref verdict document)
execute env (do_proof_request candidate base kind paths) =
    discard (proof_request env candidate base kind paths)
execute env (do_proof_record i status counts artifacts pipeline workflow) =
    discard (proof_record env i status counts artifacts pipeline workflow)
execute env (do_promote_prepare items sha base review proof) =
    discard (promote_prepare env items sha base review proof)
execute env (do_promote_commit i expected actual) = discard (promote_commit env i expected actual)

-- A client calls one verb after the other, each in the world as it then is, and goes on after a
-- refusal.
unfoldable pub history : List (Env × Command) → Store → Store
history [] s = s
history ((env, c) ∷ rest) s = history rest (execute env c s).1
