-- ===== src/Waits/Verdict.antt =====
-- pglock.py: who holds the lock, and whether a run waits for it. Times are hundredths of a second.
use voice_pod_dispatcher.Prelude.{
  ℕ, ◌+◌, Bool, true, false, not, ◌&&◌, Option, none, some, ◌==◌, if◌then◌else◌, ltb,
}

-- The states of `probe`.
pub data LockState : Type 0 where
  held free unmeasured : LockState

pub record Lock : Type 0 where
  pub state : LockState
  pub pid : Option ℕ

-- What the system answers to a probe: whether the file is there and can be opened, and F_GETLK's
-- type and pid where the kernel does not decline.
pub record Answers : Type 0 where
  pub there : Bool
  pub opens : Bool
  pub unlocked_by : Option (Bool × ℕ)

abbrev unknown : Lock
unknown = record { state = unmeasured; pid = none }

-- `pid or None`
abbrev truthy_pid : ℕ → Option ℕ
truthy_pid pid = if pid == 0 then none else some pid

unfoldable pub probe : Answers → Lock
probe a = if not a.there then unknown else if not a.opens then unknown else elim a.unlocked_by [
  | none ↦ unknown
  | some (unlocked, pid) ↦
      if unlocked
      then record { state = free; pid = none }
      else record { state = held; pid = truthy_pid pid }
]

-- The states of `verdict`.
pub data RunState : Type 0 where
  live stalled not_measured : RunState

abbrev pub is_held : LockState → Bool
is_held held = true
is_held free = false
is_held unmeasured = false

abbrev pub is_unmeasured : LockState → Bool
is_unmeasured held = false
is_unmeasured free = false
is_unmeasured unmeasured = true

-- Whether the run is the process that holds the lock.
abbrev pub holds : (run_pid : ℕ) → Lock → Bool
holds run_pid lock = elim lock.pid [ none ↦ false | some pid ↦ not (pid == 0) && pid == run_pid ]

-- The time burned is `cpu_now - cpu_prev`, which may be negative.
unfoldable pub verdict : (run_pid : ℕ) → Option Lock → (cpu_now cpu_prev : Option ℕ) → ℕ → RunState
verdict run_pid none cpu_now cpu_prev idle = not_measured
verdict run_pid (some lock) none cpu_prev idle = not_measured
verdict run_pid (some lock) (some now) none idle = not_measured
verdict run_pid (some lock) (some now) (some prev) idle =
    if is_unmeasured lock.state
    then not_measured
    else if not (is_held lock.state)
    then live
    else if holds run_pid lock
    then live
    else if ltb (prev + idle) now
    then live
    else stalled
