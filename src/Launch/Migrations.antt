-- ===== src/Launch/Migrations.antt =====
-- ci/control/orchestration_control.py: `migration allocate`.
use voice_pod_dispatcher.Prelude.{
  ℕ, ◌+◌, String, str_eq, Bool, true, false, Option, none, some, List, [], ◌∷◌, ◌++◌, map, select,
}
use voice_pod_dispatcher.Launch.Check.{Check, ok, err, system_exit, ◌>>=◌, ◌>>◌, exit_if}
use voice_pod_dispatcher.Launch.Schema.{
  state_in, finished_states, Task, Migration, Control, Catalog,
}
use voice_pod_dispatcher.Launch.World.{Files, World}
use voice_pod_dispatcher.Launch.Sessions.{larger, max_of}
use voice_pod_dispatcher.Launch.Journal.{write_event}
use voice_pod_dispatcher.Launch.Rows.{find_task, ensure_catalog}

-- MIGRATION_FLOOR
abbrev pub migration_floor : ℕ
migration_floor = 266

abbrev pub at_least : ℕ → Option ℕ → ℕ
at_least ceiling none = ceiling
at_least ceiling (some n) = larger ceiling n

abbrev pub numbers : List Migration → List ℕ
numbers ms = map (λ (m : Migration). m.number) ms

abbrev pub base_ceiling : Files → ℕ
base_ceiling files = elim files.migration_files [
  | none ↦ migration_floor
  | some ns ↦ at_least migration_floor (max_of ns)
]

unfoldable pub migration_ceiling : Files → List Migration → ℕ
unfolding max_of
migration_ceiling files ms = at_least (base_ceiling files) (max_of (numbers ms))

abbrev pub is_for : String → Migration → Bool
is_for i m = str_eq m.task i

unfoldable pub exiting : Option Task → Check Task
exiting none = err system_exit
exiting (some r) = ok r

abbrev pub is_none : Option ℕ → Bool
is_none none = true
is_none (some _) = false

unfoldable pub add_migration : ℕ → String → Control → Control
add_migration number i c = record c {
  migrations = c.migrations ++ record { number = number; task = i } ∷ [];
}

-- mine[-1], the largest number of the task
unfoldable pub own_number : String → List Migration → Option ℕ
unfolding max_of select
own_number i ms = max_of (numbers (select (is_for i) ms))

unfoldable pub fresh_number : World → String → Control → ℕ × Control
unfolding migration_ceiling add_migration write_event
fresh_number w i c =
    let number = migration_ceiling w.files c.migrations + 1 in
    (number, write_event w "MIGRATION_ALLOCATED" none (add_migration number i c))

-- The number of the task, if it has one and asks for no other.
unfoldable pub reuse_or : World → (i : String) → (another : Bool) → Control → Option ℕ → ℕ × Control
unfolding fresh_number
reuse_or w i another c none = fresh_number w i c
reuse_or w i true c (some number) = fresh_number w i c
reuse_or w i false c (some number) = (number, c)

unfoldable pub number_for : World → (i : String) → (another : Bool) → Control → ℕ × Control
unfolding own_number reuse_or
number_for w i another c = reuse_or w i another c (own_number i c.migrations)

-- The number, with the state.
unfoldable pub allocate :
    World → Catalog → (i : String) → (another : Bool) → Control → Check (ℕ × Control)
unfolding ensure_catalog find_task exiting number_for
allocate w cat i another c = do
  ensure_catalog cat c
  r ← exiting (find_task i c)
  exit_if (state_in r.state finished_states)
  ok (number_for w i another c)
