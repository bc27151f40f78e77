-- ===== src/Launch/Setup.antt =====
-- ci/control/orchestration_control.py: the run: `init`, `bind-chief`, `satisfy-gate`, `activate`,
-- `drain`, `bind-controller`, `ready`.
use voice_pod_dispatcher.Prelude.{
  ℕ, String, str_eq, Bool, true, false, not, ◌&&◌, ◌||◌, Option, none, some, List, [], ◌∷◌, map,
  if◌then◌else◌, is_some, is_among, all, any, update_row,
}
use voice_pod_dispatcher.Launch.Check.{Check, ok, ◌>>=◌, ◌>>◌, refuse_if}
use voice_pod_dispatcher.Launch.Schema.{
  planned, prepared, active, draining, on_task, Task, Claim, Chief, ActivationGate, Control,
  Contract, Catalog,
}
use voice_pod_dispatcher.Launch.World.{World}
use voice_pod_dispatcher.Launch.Journal.{new_event, write_event}
use voice_pod_dispatcher.Launch.Readiness.{recompute_readiness}
use voice_pod_dispatcher.Launch.Rows.{is_running, evidence_of, ensure_catalog}

-- sorted(REQUIRED_ACTIVATION_GATES)
abbrev pub required_gates : List String
required_gates =
    "DRY_RUN_PASSED" ∷ "PRESERVATION_COMPLETE" ∷ "RECOVERY_ADOPTED" ∷ "REQUIREMENTS_REBOUND" ∷ []

unfoldable pub first_row : ℕ → Contract → Task
first_row now k = record {
  task_id = k.id;
  chief = k.chief;
  kind = k.kind;
  role = k.role;
  dynamic = false;
  parameters = record {
    keys = [];
    candidate_sha = none;
    tree_sha = none;
    scope = none;
    union_sha = none;
  };
  acceptance = [];
  review_key = none;
  state = planned;
  depends_on = k.depends_on;
  rewired = false;
  waiting_for = map on_task k.depends_on;
  unlocks_dependents = false;
  is_accepted = false;
  attempt_id = none;
  child_id = none;
  claim_id = none;
  owned_paths = [];
  base_sha = none;
  output_sha = none;
  tree_sha = none;
  evidence = [];
  blocker = none;
  reviews = [];
  stacked_on = [];
  updated_at = now;
}

abbrev pub unbound : String → Chief
unbound name = record { name = name; thread_id = none; is_bound = false }

unfoldable pub first_state : ℕ → Catalog → Control
unfolding first_row
first_state now cat = record {
  phase = prepared;
  catalog_sha256 = cat.sha256;
  candidate = record { sha = none; tree = none; repository = none; registered_at = 0 };
  chiefs = unbound "A" ∷ unbound "B" ∷ [];
  sequence = 0;
  activation_gates = map (λ name. record { name = name; is_satisfied = false }) required_gates;
  claims = [];
  tasks = map (first_row now) cat.contracts;
  migrations = [];
  publications = [];
}

unfoldable pub init : World → Catalog → (force : Bool) → Option Control → Check Control
unfolding first_state new_event write_event recompute_readiness
init w cat force old = do
  refuse_if (is_some old && not force)
  recompute_readiness w cat (some (new_event w "RUN_INITIALIZED" none (first_state w.now cat)))
      (write_event w "RUN_INITIALIZED" none (first_state w.now cat))

-- state["chiefs"][chief] = …
unfoldable pub put_chief : Chief → List Chief → List Chief
put_chief h [] = h ∷ []
put_chief h (x ∷ xs) = if str_eq x.name h.name then h ∷ xs else x ∷ put_chief h xs

unfoldable pub bind_chief : World → Catalog → (chief thread_id : String) → Control → Check Control
unfolding put_chief write_event ensure_catalog
bind_chief w cat chief thread_id c = do
  ensure_catalog cat c
  ok (
      write_event w "CHIEF_BOUND" none (record c {
        chiefs =
            put_chief (record { name = chief; thread_id = some thread_id; is_bound = true })
              c.chiefs;
      }))

abbrev pub is_gate : String → ActivationGate → Bool
is_gate name g = str_eq g.name name

unfoldable pub satisfy_gate : World → Catalog → (name evidence : String) → Control → Check Control
unfolding evidence_of write_event ensure_catalog
satisfy_gate w cat name evidence c = do
  ensure_catalog cat c
  refuse_if (not (is_among name required_gates))
  _ ← evidence_of w.files evidence
  ok (
      write_event w "ACTIVATION_GATE_SATISFIED" none (record c {
        activation_gates =
            update_row (is_gate name) (λ g. record g { is_satisfied = true }) c.activation_gates;
      }))

unfoldable pub activate : World → Catalog → Control → Check Control
unfolding write_event ensure_catalog
activate w cat c = do
  ensure_catalog cat c
  refuse_if (not (all (λ (h : Chief). h.is_bound) c.chiefs))
  refuse_if (not (all (λ (g : ActivationGate). g.is_satisfied) c.activation_gates))
  ok (write_event w "RUN_ACTIVATED" none (record c { phase = active }))

unfoldable pub drain : World → Catalog → Control → Check Control
unfolding write_event ensure_catalog
drain w cat c = do
  ensure_catalog cat c
  ok (write_event w "RUN_DRAINING" none (record c { phase = draining }))

unfoldable pub bind_controller : World → Catalog → (thread_id : String) → Control → Check Control
unfolding write_event ensure_catalog
bind_controller w cat thread_id c = do
  ensure_catalog cat c
  refuse_if (
      not (elim c.phase [ draining ↦ true | _ ↦ false ])
      || any is_running c.tasks
      || any (λ (k : Claim). k.is_active) c.claims)
  ok (
      write_event w "CONTROLLER_BOUND" none (record c {
        chiefs =
            map (λ (h : Chief). record h { thread_id = some thread_id; is_bound = true }) c.chiefs;
      }))

-- `ready` refreshes the rows and prints them; nobody is told.
unfoldable pub list_ready : World → Catalog → Control → Check Control
unfolding recompute_readiness ensure_catalog
list_ready w cat c = do ensure_catalog cat c; recompute_readiness w cat none c
