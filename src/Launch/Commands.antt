-- ===== src/Launch/Commands.antt =====
-- ci/control/orchestration_control.py: the commands, and histories of them.
use voice_pod_dispatcher.Prelude.{String, Bool, List, [], ◌∷◌}
use voice_pod_dispatcher.Launch.Check.{Check, ok, err, ◌>>=◌}
use voice_pod_dispatcher.Launch.Schema.{Control, Catalog}
use voice_pod_dispatcher.Launch.World.{World}
use voice_pod_dispatcher.Launch.Journal.{Disk, locked}
use voice_pod_dispatcher.Launch.Setup.{
  bind_chief, satisfy_gate, activate, drain, bind_controller, list_ready,
}
use voice_pod_dispatcher.Launch.Claiming.{ClaimArgs, claim}
use voice_pod_dispatcher.Launch.Work.{
  InstantiateArgs, StartArgs, ResultArgs, instantiate, start, complete, adopt,
}
use voice_pod_dispatcher.Launch.Repair.{PromoteArgs, block, unblock, promote, rewire, retire}
use voice_pod_dispatcher.Launch.Contamination.{invalidate}
use voice_pod_dispatcher.Launch.Migrations.{allocate}
use voice_pod_dispatcher.Launch.Candidates.{CandidateArgs, register_candidate, record_review}
use voice_pod_dispatcher.Launch.Verify.{reconcile}

-- The commands on a state that `init` made.
pub data Command : Type 0 where
  do_bind : (chief thread_id : String) → Command
  do_gate : (name evidence : String) → Command
  do_activate do_drain do_ready do_reconcile : Command
  do_bind_controller : (thread_id : String) → Command
  do_instantiate : InstantiateArgs → Command
  do_claim : ClaimArgs → Command
  do_start : StartArgs → Command
  do_complete do_adopt : ResultArgs → Command
  do_block : (task_id class reason evidence : String) → Command
  do_unblock : (task_id evidence : String) → Command
  do_promote : PromoteArgs → Command
  do_rewire : (task_id : String) → (depends_on : List String) → Command
  do_retire : (task_id reason : String) → (closers evidence : List String) → Command
  do_invalidate : (task_id reason evidence : String) → Command
  do_allocate : (task_id : String) → (another : Bool) → Command
  do_register : CandidateArgs → Command
  do_record_review : (task_id verdict role : String) → Command

unfoldable pub execute : World → Catalog → Command → Control → Check Control
unfolding allocate
execute w cat (do_bind chief thread_id) c = bind_chief w cat chief thread_id c
execute w cat (do_gate name evidence) c = satisfy_gate w cat name evidence c
execute w cat do_activate c = activate w cat c
execute w cat do_drain c = drain w cat c
execute w cat do_ready c = list_ready w cat c
execute w cat do_reconcile c = reconcile w cat c
execute w cat (do_bind_controller thread_id) c = bind_controller w cat thread_id c
execute w cat (do_instantiate a) c = instantiate w cat a c
execute w cat (do_claim a) c = claim w cat a c
execute w cat (do_start a) c = start w cat a c
execute w cat (do_complete a) c = complete w cat a c
execute w cat (do_adopt a) c = adopt w cat a c
execute w cat (do_block i class reason evidence) c = block w cat i class reason evidence c
execute w cat (do_unblock i evidence) c = unblock w cat i evidence c
execute w cat (do_promote a) c = promote w cat a c
execute w cat (do_rewire i deps) c = rewire w cat i deps c
execute w cat (do_retire i reason closers evidence) c = retire w cat i reason closers evidence c
execute w cat (do_invalidate i reason evidence) c = invalidate w cat i reason evidence c
execute w cat (do_allocate i another) c = do x ← allocate w cat i another c; ok x.1
execute w cat (do_register a) c = register_candidate w cat a c
execute w cat (do_record_review i verdict role) c = record_review w cat i verdict role c

-- A command that raises writes nothing.
abbrev pub after : Control → Check Control → Control
after c (ok c') = c'
after c (err e) = c

-- The state after commands, the last of the list first to run; each has its own world and catalog.
unfoldable pub history : List (World × Catalog × Command) → Control → Control
unfolding execute
history [] c = c
history ((w, cat, x) ∷ steps) c = after (history steps c) (execute w cat x (history steps c))

-- A command as it runs, on the state file and the files beside it.
unfoldable pub run : World → Catalog → Command → Disk → Disk × Check (Unit {0})
unfolding execute locked
run w cat x d = locked (execute w cat x) d
