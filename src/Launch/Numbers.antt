-- ===== src/Launch/Numbers.antt =====
-- The numbers of migrations (ci/control/orchestration_control.py).
use voice_pod_dispatcher.Prelude.{
  ℕ, ◌<◌, ◌≤◌, ◌≡◌, sym, subst, Bool, true, ◌&&◌, Option, none, some, List, [], ◌∷◌, ◌++◌, ltb, inl,
  inr, Option-cases, arith,
}
use voice_pod_dispatcher.Launch.Schema.{Migration, Control, Catalog}
use voice_pod_dispatcher.Launch.World.{Files, World}
use voice_pod_dispatcher.Launch.Sessions.{max_of}
use voice_pod_dispatcher.Launch.Rows.{edit_task, release_claim, release_all}
use voice_pod_dispatcher.Launch.Work.{add_task}
use voice_pod_dispatcher.Launch.Migrations.{
  migration_floor, at_least, numbers, base_ceiling, migration_ceiling, add_migration,
}
use voice_pod_dispatcher.Launch.Commands.{Command, history}
use voice_pod_dispatcher.Launch.Rule.{Rule}
use voice_pod_dispatcher.Launch.Preserve.{Keeps-history}

-- Each number is above the one before, the first above the bound.
abbrev pub rising : ℕ → List Migration → Bool
rising bound [] = true
rising bound (m ∷ ms) = ltb bound m.number && rising m.number ms

at_least-cons :
    (bound n : ℕ) (ns : List ℕ)
    → ltb bound n ≡ true
    → at_least n (max_of ns) ≤ at_least bound (max_of (n ∷ ns))
unfolding max_of
at_least-cons bound n ns e = elim (Option-cases (max_of ns)) [
  | inl none_left ↦ rw none_left (ground arith)
  | inr (k, found) ↦ rw found (ground arith)
]

rising-append :
    (bound : ℕ) (ms : List Migration) (m : Migration)
    → rising bound ms ≡ true
    → at_least bound (max_of (numbers ms)) < m.number
    → rising bound (ms ++ m ∷ []) ≡ true
unfolding max_of
rising-append bound [] m e h = ground arith
rising-append bound (x ∷ ms) m e h =
    ground (arith, at_least-cons bound x.number (numbers ms), rising-append x.number ms m)

floor-le :
    (files : Files) (o : Option ℕ) → at_least migration_floor o ≤ at_least (base_ceiling files) o
floor-le files none = ground arith
floor-le files (some n) = ground arith

numbers_rule :
    Rule
      (λ c. rising migration_floor c.migrations ≡ true)
      (λ c. rising migration_floor c.migrations ≡ true)
unfolding edit_task add_task release_claim release_all add_migration migration_ceiling
numbers_rule = record {
  weaken = λ c h. h;
  frame = λ c c' same h. subst (λ ms. rising migration_floor ms ≡ true) (sym same.migrations) h;
  refreshed = λ w cat c rows e h. h;
  edit = λ i f r c e change h. h;
  add = λ r c e e' e'' h. h;
  put = λ k c e h. h;
  release = λ i c h. h;
  release_every = λ i c h. h;
  number = λ w n i c e h.
      rising-append migration_floor c.migrations (record { number = n; task = i }) h
        (omega (arith, floor-le w.files (max_of (numbers c.migrations)), e));
}

-- Through every history, with any files at the base, the numbers that are recorded rise, the first
-- above 266.
pub history-rising :
    (steps : List (World × Catalog × Command)) (c : Control)
    → rising migration_floor c.migrations ≡ true
    → rising migration_floor (history steps c).migrations ≡ true
history-rising steps c h = Keeps-history numbers_rule steps c h
