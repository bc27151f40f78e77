-- ===== src/Alerts/Trimming.antt =====
-- What `annotate` may forget (vp/vpalerts.py).
use voice_pod_dispatcher.Prelude.{
  subst, ◌++◌, ℕ, ◌-◌, ◌≤◌, String, ◌≡◌, refl, sym, ◌∙◌, ap, Bool, true, false, ◌&&◌, Option, none,
  some, List, [], ◌∷◌, if◌then◌else◌, leb, ltb, ◌==◌, inl, inr, Bool-cases, Option-cases, arith,
  length,
}
use voice_pod_dispatcher.Alerts.Signals.{
  Signals, Alert, Config, same_signature, fired, times, streak_times, family_times, exact_times,
  in_window, measure,
}
use voice_pod_dispatcher.Alerts.Severity.{
  Tier, severity, time_of, assess, keep_since, remember, annotate,
}

-- A time that a test of `assess` takes.
abbrev Recent : Config → ℕ → (Alert → Bool) → Type 0
Recent cfg now p =
    (h : Alert) → p h ≡ true → (x : ℕ) × (h.ts ≡ some x) × (leb (now - cfg.age_horizon_s) x ≡ true)

times_cons :
    (p : Alert → Bool) (h : Alert) (xs ys : List Alert)
    → times p xs ≡ times p ys
    → times p (h ∷ xs) ≡ times p (h ∷ ys)
unfolding times
times_cons p h xs ys e =
    ap (λ rest. if p h then (elim h.ts [ none ↦ rest | some x ↦ x ∷ rest ]) else rest) e

times_skip :
    (p : Alert → Bool) (h : Alert) (xs : List Alert) → p h ≡ false → times p (h ∷ xs) ≡ times p xs
unfolding times
times_skip p h xs e = rw e refl

-- A row that passes the test is not dropped.
drop_or_keep :
    (p : Alert → Bool) (stays : Bool) (h : Alert) (xs ys : List Alert)
    → (p h ≡ true → stays ≡ true)
    → times p xs ≡ times p ys
    → times p (if stays then h ∷ xs else xs) ≡ times p (h ∷ ys)
drop_or_keep p true h xs ys needed e = times_cons p h xs ys e
drop_or_keep p false h xs ys needed e = elim (Bool-cases (p h)) [
  | inl passes ↦ absurd (false≢true (needed passes))
  | inr fails ↦ e ∙ sym (times_skip p h ys fails)
]
  where
    false≢true : false ≡ true → ⊥
    false≢true q = cc

module _ (cfg : Config) (t now : ℕ) (later : t ≤ now) where
  kept :
      (o : Option ℕ) (x : ℕ)
      → o ≡ some x
      → leb (now - cfg.age_horizon_s) x ≡ true
      → leb (t - cfg.age_horizon_s) (elim o [ none ↦ t | some y ↦ if y == 0 then t else y ]) ≡ true
  kept o x e h = rw e (ground arith)

  times-keep_since :
      (p : Alert → Bool) (hs : List Alert)
      → Recent cfg now p
      → times p (keep_since (t - cfg.age_horizon_s) t hs) ≡ times p hs
  unfolding times keep_since
  times-keep_since p [] recent = refl
  times-keep_since p (h ∷ hs) recent =
      drop_or_keep p
        (leb (t - cfg.age_horizon_s) (elim h.ts [ none ↦ t | some y ↦ if y == 0 then t else y ])) h
        (keep_since (t - cfg.age_horizon_s) t hs) hs
        (λ passes. let (x, read, near) = recent h passes in kept h.ts x read near)
        (times-keep_since p hs recent)

module _ (family : String → String) (cfg : Config) (now : ℕ) (a : Alert) where
  -- What the three counts ask, besides more.
  Recent-fired :
      (more : Alert → Bool) → Recent cfg now (λ h. fired family cfg.age_horizon_s now a h && more h)
  unfolding fired
  Recent-fired more h e = elim (Option-cases h.ts) [
    | inl unread ↦ absurd (ground (arith, rw unread at e))
    | inr (x, read) ↦ (x, read, ground (arith, rw read at e))
  ]

  Recent-streak : Recent cfg now (fired family cfg.age_horizon_s now a)
  unfolding fired
  Recent-streak h e = elim (Option-cases h.ts) [
    | inl unread ↦ absurd (ground (arith, rw unread at e))
    | inr (x, read) ↦ (x, read, ground (arith, rw read at e))
  ]

  measure-SameRecent :
      (backlog : List (Option ℕ × ℕ)) (xs ys : List Alert)
      → ((p : Alert → Bool) → Recent cfg now p → times p xs ≡ times p ys)
      → measure family cfg now backlog a xs ≡ measure family cfg now backlog a ys
  unfolding measure exact_times family_times streak_times
  measure-SameRecent backlog xs ys same = rw (
    same (fired family cfg.age_horizon_s now a) Recent-streak,
    same _ (Recent-fired (in_window cfg now)),
    same _ (Recent-fired (λ h. in_window cfg now h && same_signature a h)),
  )

times-++ : (p : Alert → Bool) (xs ys : List Alert) → times p (xs ++ ys) ≡ times p xs ++ times p ys
unfolding times
times-++ p [] ys = refl
times-++ p (x ∷ xs) ys = elim (Bool-cases (p x)) [
  | inl passes ↦ elim (Option-cases x.ts) [
    | inl unread ↦ rw (passes, unread) (times-++ p xs ys)
    | inr (t, read) ↦ rw (passes, read) (ap (λ ts. t ∷ ts) (times-++ p xs ys))
  ]
  | inr fails ↦ rw fails (times-++ p xs ys)
]

-- Two histories that no alert from a time on tells apart.
abbrev SameRecent : Config → ℕ → (xs ys : List Alert) → Type 0
SameRecent cfg t xs ys =
    (now : ℕ) → t ≤ now → (p : Alert → Bool) → Recent cfg now p → times p xs ≡ times p ys

-- The time of the last alert that has one.
abbrev after : ℕ → Alert → ℕ
after t a = elim a.ts [ none ↦ t | some x ↦ x ]

-- The alerts are in the order of their times.
unfoldable pub Ordered : (clock : ℕ) → ℕ → List Alert → Type 0
Ordered clock t [] = Unit
Ordered clock t (a ∷ as') = (t ≤ time_of clock a) × Ordered clock (after t a) as'

stamped : (t x now : ℕ) (a : Alert) → a.ts ≡ some x → after t a ≤ now → x ≤ now
stamped t x now a read later = subst (λ o. (elim o [ none ↦ t | some y ↦ y ]) ≤ now) read later

module _ (family : String → String) (cfg : Config) (clock : ℕ) where
  -- Each alert of a stream assessed on all that came before it.
  abbrev pub assess_all :
      List (Option ℕ × ℕ) → (seen alerts : List Alert) → List (Alert × (Tier × Signals))
  assess_all backlog seen [] = []
  assess_all backlog seen (a ∷ as') =
      (a, assess family cfg clock backlog a seen) ∷ assess_all backlog (seen ++ a ∷ []) as'

  SameRecent-append :
      (t : ℕ) (xs ys : List Alert) (a : Alert)
      → SameRecent cfg t xs ys
      → SameRecent cfg t (xs ++ a ∷ []) (ys ++ a ∷ [])
  SameRecent-append t xs ys a same now later p recent =
      rw (times-++ p xs (a ∷ []), times-++ p ys (a ∷ []), same now later p recent) refl

  SameRecent-remember :
      (t : ℕ) (xs ys : List Alert) (a : Alert)
      → t ≤ time_of clock a
      → SameRecent cfg t xs ys
      → SameRecent cfg (after t a) (remember cfg a xs) ys
  unfolding remember
  SameRecent-remember t xs ys a late same = elim (Option-cases a.ts) [
    | inl unread ↦ rw unread same
    | inr (x, read) ↦ λ now later p recent.
        let dated : x ≤ now = stamped t x now a read later in
        let near : t ≤ now = ground (arith, rw read at late) in
        elim (Bool-cases (ltb 2000 (length xs))) [
          | inl long ↦
              rw (read, long)
                (times-keep_since cfg x now dated p xs recent ∙ same now near p recent)
          | inr short ↦ rw (read, short) (same now near p recent)
        ]
  ]

  assess-SameRecent :
      (backlog : List (Option ℕ × ℕ)) (t : ℕ) (xs ys : List Alert) (a : Alert)
      → t ≤ time_of clock a
      → SameRecent cfg t xs ys
      → assess family cfg clock backlog a xs ≡ assess family cfg clock backlog a ys
  unfolding assess
  assess-SameRecent backlog t xs ys a late same =
      ap (λ s. (severity cfg a.kind s, s))
        (measure-SameRecent family cfg (time_of clock a) a backlog xs ys (same _ late))

  annotate-SameRecent :
      (backlog : List (Option ℕ × ℕ)) (t : ℕ) (xs ys alerts : List Alert)
      → Ordered clock t alerts
      → SameRecent cfg t xs ys
      → annotate family cfg clock backlog xs alerts ≡ assess_all backlog ys alerts
  unfolding Ordered annotate
  annotate-SameRecent backlog t xs ys [] ordered same = refl
  annotate-SameRecent backlog t xs ys (a ∷ as') (late, ordered) same = rw (
    assess-SameRecent backlog t xs ys a late same,
    annotate-SameRecent backlog (after t a) (remember cfg a (xs ++ a ∷ [])) (ys ++ a ∷ []) as'
        ordered
        (SameRecent-remember t (xs ++ a ∷ []) (ys ++ a ∷ []) a late
          (SameRecent-append t xs ys a same)),
  )

-- On a stream in the order of its times, `annotate`, which forgets old alerts, gives every alert
-- the assessment that it has on all the alerts before it.
pub annotate-assess_all :
    (family : String → String) (cfg : Config) (clock : ℕ) (backlog : List (Option ℕ × ℕ))
    (alerts : List Alert)
    → Ordered clock 0 alerts
    → annotate family cfg clock backlog [] alerts ≡ assess_all family cfg clock backlog [] alerts
annotate-assess_all family cfg clock backlog alerts ordered =
    annotate-SameRecent family cfg clock backlog 0 [] [] alerts ordered (λ now late p recent. refl)
