-- ===== src/Launch/Distinct.antt =====
-- The numbers that `migration allocate` gives (ci/control/orchestration_control.py).
use voice_pod_dispatcher.Prelude.{
  ℕ, ◌+◌, ◌<◌, ◌≤◌, String, eq_iff, ◌≡◌, ◌≢◌, refl, sym, ◌∙◌, ap, subst, Bool, true, false, Option,
  none, some, List, [], ◌∷◌, ◌++◌, ◌⊎◌, inl, inr, Bool-cases, Option-cases, arith, select, ◌==◌,
  ltb,
}
use voice_pod_dispatcher.Launch.Check.{ok, ◌>>=◌, exit_if}
use voice_pod_dispatcher.Launch.Schema.{state_in, finished_states, Migration, Control, Catalog}
use voice_pod_dispatcher.Launch.World.{World}
use voice_pod_dispatcher.Launch.Sessions.{max_of}
use voice_pod_dispatcher.Launch.Journal.{write_event}
use voice_pod_dispatcher.Launch.Rows.{
  find_task, ensure_catalog, edit_task, release_claim, release_all,
}
use voice_pod_dispatcher.Launch.Work.{add_task}
use voice_pod_dispatcher.Launch.Migrations.{
  migration_floor, at_least, numbers, base_ceiling, migration_ceiling, is_for, add_migration,
  own_number, fresh_number, reuse_or, number_for, exiting, allocate,
}
use voice_pod_dispatcher.Launch.Commands.{Command, do_allocate, execute, after, history}
use voice_pod_dispatcher.Launch.Ensures.{Ensures, Ensures-ok, after_value}
use voice_pod_dispatcher.Launch.Rule.{Rule}
use voice_pod_dispatcher.Launch.Preserve.{Keeps-history}
use voice_pod_dispatcher.Launch.Numbers.{rising, history-rising}

-- The state has the number as one of the task's.
unfoldable pub Recorded : (n : ℕ) → (i : String) → List Migration → Type 0
Recorded n i [] = ⊥
Recorded n i (m ∷ ms) = ((m.number ≡ n) × (m.task ≡ i)) ⊎ Recorded n i ms

none≢some : {n : ℕ} → none ≡ some n → ⊥
none≢some q = cc

some_inj : {x y : ℕ} → some x ≡ some y → x ≡ y
some_inj q = cc

module _ (n : ℕ) (i : String) where
  Recorded-last : (ms : List Migration) → Recorded n i (ms ++ record { number = n; task = i } ∷ [])
  unfolding Recorded
  Recorded-last [] = inl (refl, refl)
  Recorded-last (m ∷ ms) = inr (Recorded-last ms)

  Recorded-append :
      (ms : List Migration) (x : Migration) → Recorded n i ms → Recorded n i (ms ++ x ∷ [])
  unfolding Recorded
  Recorded-append [] x h = absurd h
  Recorded-append (m ∷ ms) x (inl same) = inl same
  Recorded-append (m ∷ ms) x (inr later) = inr (Recorded-append ms x later)

  above_bound :
      (bound : ℕ) (ms : List Migration) → rising bound ms ≡ true → Recorded n i ms → bound < n
  unfolding Recorded
  above_bound bound [] up h = absurd h
  above_bound bound (m ∷ ms) up (inl (same, _)) = ground (arith, up, same)
  above_bound bound (m ∷ ms) up (inr later) =
      ground (arith, up, above_bound m.number ms (ground (arith, up)) later)

  below_largest :
      (bound : ℕ) (ms : List Migration) → Recorded n i ms → n ≤ at_least bound (max_of (numbers ms))
  unfolding Recorded max_of
  below_largest bound [] h = absurd h
  below_largest bound (m ∷ ms) (inl (same, _)) = elim (Option-cases (max_of (numbers ms))) [
    | inl alone ↦ rw alone (ground (arith, same))
    | inr (k, largest) ↦ rw largest (ground (arith, same))
  ]
  below_largest bound (m ∷ ms) (inr later) = elim (Option-cases (max_of (numbers ms))) [
    | inl alone ↦ rw alone (ground (arith, rw alone at (below_largest bound ms later)))
    | inr (k, largest) ↦ rw largest (ground (arith, rw largest at (below_largest bound ms later)))
  ]

  Recorded-own : (ms : List Migration) → own_number i ms ≡ some n → Recorded n i ms
  unfolding own_number max_of select Recorded
  Recorded-own [] e = absurd (none≢some e)
  Recorded-own (m ∷ ms) e = elim (Bool-cases (is_for i m)) [
    | inl mine ↦ elim (Option-cases (max_of (numbers (select (is_for i) ms)))) [
      | inl alone ↦ inl (some_inj (rw (mine, alone) at e), (eq_iff m.task i).0 mine)
      | inr (k, largest) ↦ elim (Bool-cases (ltb m.number k)) [
        | inl smaller ↦ inr (Recorded-own ms (largest ∙ rw (mine, largest, smaller) at e))
        | inr larger_here ↦
            inl (some_inj (rw (mine, largest, larger_here) at e), (eq_iff m.task i).0 mine)
      ]
    ]
    | inr other ↦ inr (Recorded-own ms (rw other at e))
  ]

  Recorded-rule : Rule (λ c. Recorded n i c.migrations) (λ c. Recorded n i c.migrations)
  unfolding edit_task add_task release_claim release_all add_migration
  Recorded-rule = record {
    weaken = λ c h. h;
    frame = λ c c' same h. subst (Recorded n i) (sym same.migrations) h;
    refreshed = λ w cat c rows e h. h;
    edit = λ j f r c e change h. h;
    add = λ r c e e' e'' h. h;
    put = λ k c e h. h;
    release = λ j c h. h;
    release_every = λ j c h. h;
    number = λ w m j c e h. Recorded-append c.migrations (record { number = m; task = j }) h;
  }

one_owner :
    (bound n : ℕ) (i j : String) (ms : List Migration)
    → rising bound ms ≡ true
    → Recorded n i ms
    → Recorded n j ms
    → i ≡ j
unfolding Recorded
one_owner bound n i j [] up a b = absurd a
one_owner bound n i j (m ∷ ms) up (inl (_, mine)) (inl (_, yours)) = sym mine ∙ yours
one_owner bound n i j (m ∷ ms) up (inl (same, _)) (inr later) =
    absurd (ground (arith, same, above_bound n j m.number ms (ground (arith, up)) later))
one_owner bound n i j (m ∷ ms) up (inr later) (inl (same, _)) =
    absurd (ground (arith, same, above_bound n i m.number ms (ground (arith, up)) later))
one_owner bound n i j (m ∷ ms) up (inr a) (inr b) =
    one_owner m.number n i j ms (ground (arith, up)) a b

-- A number, with the state in which it is recorded as the task's.
abbrev IsGiven : String → ℕ × Control → Type 0
IsGiven i p = Recorded p.0 i p.1.migrations

IsGiven-fresh : (w : World) (i : String) (c : Control) → IsGiven i (fresh_number w i c)
unfolding fresh_number write_event add_migration
IsGiven-fresh w i c = Recorded-last (migration_ceiling w.files c.migrations + 1) i c.migrations

fresh_above :
    (w : World) (i : String) (c : Control) (m : ℕ) (j : String)
    → Recorded m j c.migrations
    → m < (fresh_number w i c).0
unfolding fresh_number migration_ceiling
fresh_above w i c m j r = ground (arith, below_largest m j (base_ceiling w.files) c.migrations r)

module _ (w : World) (i : String) (c : Control) where
  IsGiven-reuse :
      (another : Bool) (o : Option ℕ)
      → own_number i c.migrations ≡ o
      → IsGiven i (reuse_or w i another c o)
  unfolding reuse_or
  IsGiven-reuse another none own = IsGiven-fresh w i c
  IsGiven-reuse true (some k) own = IsGiven-fresh w i c
  IsGiven-reuse false (some k) own = Recorded-own k i c.migrations own

  -- A task that asks for another number gets one above all that are recorded.
  another_above :
      (o : Option ℕ) (m : ℕ) (j : String)
      → Recorded m j c.migrations
      → m < (reuse_or w i true c o).0
  unfolding reuse_or
  another_above none m j r = fresh_above w i c m j r
  another_above (some k) m j r = fresh_above w i c m j r

  allocate-number_for :
      (cat : Catalog) (another : Bool)
      → Ensures (λ p. p ≡ number_for w i another c) (allocate w cat i another c)
  unfolding allocate
  allocate-number_for cat another = after_value (ensure_catalog cat c) _ (λ _ _.
      after_value (exiting (find_task i c)) _ (λ r _.
        after_value (exit_if (state_in r.state finished_states)) _ (λ _ _. Ensures-ok _ refl)))

  module _ (cat : Catalog) (another : Bool) (n : ℕ) (c' : Control)
      (e : allocate w cat i another c ≡ ok (n, c')) where
    allocated : (n, c') ≡ number_for w i another c
    allocated = (allocate-number_for cat another).at (n, c') e

    IsGiven-allocate : IsGiven i (n, c')
    unfolding number_for
    IsGiven-allocate =
        subst (IsGiven i) (sym allocated) (IsGiven-reuse another (own_number i c.migrations) refl)

    -- The same as a history of one command.
    as_command : history ((w, cat, do_allocate i another) ∷ []) c ≡ c'
    unfolding history execute
    as_command = ap (λ m. after c (m >>= λ x. ok x.1)) e

    allocate-rising :
        rising migration_floor c.migrations ≡ true → rising migration_floor c'.migrations ≡ true
    allocate-rising up =
        subst (λ x. rising migration_floor x.migrations ≡ true) as_command
          (history-rising ((w, cat, do_allocate i another) ∷ []) c up)

    Recorded-allocate :
        (m : ℕ) (j : String) → Recorded m j c.migrations → Recorded m j c'.migrations
    Recorded-allocate m j r =
        subst (λ x. Recorded m j x.migrations) as_command
          (Keeps-history (Recorded-rule m j) ((w, cat, do_allocate i another) ∷ []) c r)

    another-new : another ≡ true → (m : ℕ) (j : String) → Recorded m j c.migrations → m ≢ n
    unfolding number_for
    another-new asked m j r same =
        let grows : m < (number_for w i another c).0 =
          rw asked (another_above (own_number i c.migrations) m j r) in
        let above : m < n = subst (λ p. m < p.0) (sym allocated) grows in omega (arith, same, above)

    apart_or_same :
        (m : ℕ) (j : String)
        → rising migration_floor c'.migrations ≡ true
        → Recorded m j c.migrations
        → (m ≢ n) ⊎ ((j ≡ i) × (another ≡ false))
    apart_or_same m j up r = elim (Bool-cases another) [
      | inl asked ↦ inl (another-new asked m j r)
      | inr content ↦ elim (Bool-cases (m == n)) [
        | inl same ↦ inr (
          one_owner migration_floor m j i c'.migrations up (Recorded-allocate m j r)
              (rw (equal same) IsGiven-allocate),
          content,
        )
        | inr other ↦ inl (λ same. ground (arith, same, other))
      ]
    ]
      where
        equal : (m == n) ≡ true → m ≡ n
        equal h = ground (arith, h)

-- Two calls of `allocate` that end well, with any history of commands between them, give different
-- numbers, unless the task is the same and the second call asks for no other number, and each is
-- above 266. The condition is that the numbers which the first state records rise from 266.
pub allocate-Distinct :
    (w w' : World) (cat cat' : Catalog) (i j : String) (another another' : Bool)
    (steps : List (World × Catalog × Command)) (c c₁ c₂ : Control) (n m : ℕ)
    → rising migration_floor c.migrations ≡ true
    → allocate w cat i another c ≡ ok (n, c₁)
    → allocate w' cat' j another' (history steps c₁) ≡ ok (m, c₂)
    → (migration_floor < n) × (migration_floor < m) × ((n ≢ m) ⊎ ((i ≡ j) × (another' ≡ false)))
unfolding number_for
allocate-Distinct w w' cat cat' i j another another' steps c c₁ c₂ n m up first second =
    let given = IsGiven-allocate w i c cat another n c₁ first in
    let up₁ = history-rising steps c₁ (allocate-rising w i c cat another n c₁ first up) in
    let given₁ = Keeps-history (Recorded-rule n i) steps c₁ given in
    let up₂ = allocate-rising w' j (history steps c₁) cat' another' m c₂ second up₁ in
    let given₂ = IsGiven-allocate w' j (history steps c₁) cat' another' m c₂ second in
    (
      above_bound n i migration_floor _ up₁ given₁,
      above_bound m j migration_floor _ up₂ given₂,
      apart_or_same w' j (history steps c₁) cat' another' m c₂ second n i up₂ given₁,
    )
