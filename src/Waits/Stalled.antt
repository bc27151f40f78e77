-- ===== src/Waits/Stalled.antt =====
-- What a run that is called stalled is (pglock.py).
use voice_pod_dispatcher.Prelude.{ℕ, ◌+◌, ◌≤◌, ◌≡◌, false, ◌⊎◌, Option, some, List, [], ◌∷◌}
use voice_pod_dispatcher.Waits.Verdict.{Lock, held, holds}
use voice_pod_dispatcher.Waits.Population.{Marker, BoxRun, Sights, is_reused}

unfoldable pub Listed : BoxRun → List BoxRun → Type 0
Listed r [] = ⊥
Listed r (x ∷ xs) = (r ≡ x) ⊎ Listed r xs

-- One of the markers names the process of the run, and no other start of it.
unfoldable pub Claimed : (tolerance : ℕ) → BoxRun → List Marker → Type 0
Claimed tolerance r [] = ⊥
Claimed tolerance r (m ∷ ms) =
    ((m.owner_pid ≡ some r.pid) × (is_reused tolerance m.owner_started_at r.started_at ≡ false))
    ⊎ Claimed tolerance r ms

module _ (s : Sights) (tolerance : ℕ) where
  -- The process of a run lives, and is the one of a marker.
  abbrev IsOf : BoxRun → Marker → Type 0
  IsOf r m =
      (s.start_time r.pid ≡ some r.started_at)
      × (m.owner_pid ≡ some r.pid)
      × (is_reused tolerance m.owner_started_at r.started_at ≡ false)

  -- A run of the list lives, and a marker claims it.
  abbrev pub IsRun : BoxRun → List Marker → Type 0
  IsRun r ms = (s.start_time r.pid ≡ some r.started_at) × Claimed tolerance r ms

-- The lock is held, by a process that is not known to be the run, and the time burned between two
-- samples is no more than `idle`.
abbrev pub Waits : (run_pid : ℕ) → Option Lock → (cpu_now cpu_prev : Option ℕ) → ℕ → Type 0
Waits run_pid lock cpu_now cpu_prev idle =
    (l : Lock) × (now : ℕ) × (prev : ℕ) × (lock ≡ some l)
    × (cpu_now ≡ some now)
    × (cpu_prev ≡ some prev)
    × (l.state ≡ held)
    × (holds run_pid l ≡ false)
    × (now ≤ prev + idle)
