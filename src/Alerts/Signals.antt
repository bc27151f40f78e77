-- ===== src/Alerts/Signals.antt =====
-- vp/vpalerts.py: what is measured of an alert and the alerts before it.
use voice_pod_dispatcher.Prelude.{
  ℕ, ◌-◌, ◌*◌, String, str_eq, Bool, false, ◌&&◌, ◌||◌, Option, none, some, List, [], ◌∷◌, ◌==◌,
  if◌then◌else◌, ltb, leb, length,
}

pub record Config : Type 0 where
  pub window_s : ℕ
  pub streak_gap_s : ℕ
  pub age_horizon_s : ℕ
  pub repeat_attention : ℕ
  pub repeat_urgent : ℕ
  pub age_attention_s : ℕ
  pub age_urgent_s : ℕ
  pub backlog_attention : ℕ
  pub backlog_urgent : ℕ
  pub floor_urgent : List String
  pub floor_routine : List String
  pub backlog_kinds : List String

-- DEFAULTS
abbrev pub defaults : Config
defaults = record {
  window_s = 6 * 3600;
  streak_gap_s = 2 * 3600;
  age_horizon_s = 48 * 3600;
  repeat_attention = 2;
  repeat_urgent = 3;
  age_attention_s = 3600;
  age_urgent_s = 3 * 3600;
  backlog_attention = 2;
  backlog_urgent = 5;
  floor_urgent =
      "BUDGET" ∷ "DISK" ∷ "CONTROL_DOWN" ∷ "AUTHORITY_MISMATCH" ∷ "ROSTER_REJECTED"
      ∷ "RELOAD_FAILED" ∷ "RESTART_STUCK" ∷ "PROOF_BLOCKED_SHM" ∷ "TOKEN_CAP" ∷ [];
  floor_routine =
      "IDLE" ∷ "RELOAD" ∷ "PROMOTED" ∷ "PACKET_RETRIED" ∷ "DRAIN" ∷ "RESTART" ∷ "PROFILE_CHANGED"
      ∷ "OWNER_GATE" ∷ [];
  backlog_kinds = "IDLE" ∷ "DRAIN" ∷ "OWED_RULINGS" ∷ [];
}

-- An alert, with the first word of its text less the signs `:;,` at its end, and with its time in
-- seconds where `parse_ts` reads one.
pub record Alert : Type 0 where
  pub kind : String
  pub task : Option String
  pub first_word : String
  pub ts : Option ℕ

unfoldable pub subject_of : Alert → String
subject_of a = elim a.task [
  | none ↦ a.first_word
  | some task ↦ if str_eq task "" then a.first_word else task
]

-- The times of the history that pass a test.
unfoldable pub times : (Alert → Bool) → List Alert → List ℕ
times p [] = []
times p (h ∷ hs) =
    let rest = times p hs in if p h then (elim h.ts [ none ↦ rest | some t ↦ t ∷ rest ]) else rest

abbrev pub in_window : Config → ℕ → Alert → Bool
in_window cfg now h = elim h.ts [ none ↦ false | some t ↦ leb (now - cfg.window_s) t ]

unfoldable pub same_signature : Alert → Alert → Bool
unfolding subject_of
same_signature a h = str_eq (subject_of h) (subject_of a) && str_eq h.kind a.kind

-- `family` drops the suffixes that _SUFFIX_RE matches; Python's `re` evaluates it.
module _ (family : String → String) where
  unfoldable pub same_family : Alert → Alert → Bool
  unfolding subject_of
  same_family a h = str_eq (family (subject_of h)) (family (subject_of a)) && str_eq h.kind a.kind

  -- An alert of the family, at most so far back.
  unfoldable pub fired : ℕ → (now : ℕ) → Alert → Alert → Bool
  unfolding same_family
  fired back now a h = elim h.ts [
    | none ↦ false
    | some t ↦ leb t now && leb (now - back) t && same_family a h
  ]

  unfoldable pub streak_times : Config → ℕ → Alert → List Alert → List ℕ
  unfolding fired times
  streak_times cfg now a hs = now ∷ times (fired cfg.age_horizon_s now a) hs

  unfoldable pub family_times : Config → ℕ → Alert → List Alert → List ℕ
  unfolding fired times
  family_times cfg now a hs =
      now ∷ times (λ h. fired cfg.age_horizon_s now a h && in_window cfg now h) hs

  unfoldable pub exact_times : Config → ℕ → Alert → List Alert → List ℕ
  unfolding fired times same_signature
  exact_times cfg now a hs =
      now
      ∷ times (λ h. fired cfg.age_horizon_s now a h && (in_window cfg now h && same_signature a h))
          hs

insert_time : ℕ → List ℕ → List ℕ
insert_time t [] = t ∷ []
insert_time t (x ∷ xs) = let rest = insert_time t xs in if leb x t then t ∷ x ∷ xs else x ∷ rest

-- sorted(times, reverse=True)
unfoldable pub latest_first : List ℕ → List ℕ
unfolding insert_time
latest_first [] = []
latest_first (t ∷ ts) = insert_time t (latest_first ts)

unfoldable pub walk_back : ℕ → (start : ℕ) → List ℕ → ℕ
walk_back gap start [] = start
walk_back gap start (t ∷ ts) =
    let earlier = walk_back gap t ts in if ltb gap (start - t) then start else earlier

-- _streak_start
unfoldable pub streak_start : List ℕ → (now gap : ℕ) → ℕ
unfolding latest_first walk_back
streak_start ts now gap = walk_back gap now (latest_first ts)

-- A sample of the backlog, with its time.
abbrev pub Sample : Type 0
Sample = ℕ × ℕ

abbrev pub before : Sample → Sample → Bool
before (t, n) (t', n') = ltb t t' || (t == t' && ltb n n')

-- sorted(…)[0] and sorted(…)[-1]
unfoldable pub ends : List Sample → Option (Sample × Sample)
ends [] = none
ends (s ∷ ss) = elim (ends ss) [
  | none ↦ some (s, s)
  | some (first, last) ↦
      some ((if before s first then s else first), (if before last s then s else last))
]

unfoldable pub inside : Config → ℕ → List (Option ℕ × ℕ) → List Sample
inside cfg now [] = []
inside cfg now ((none, n) ∷ ss) = inside cfg now ss
inside cfg now ((some t, n) ∷ ss) =
    let rest = inside cfg now ss in
    if leb (now - cfg.window_s) t && leb t now then (t, n) ∷ rest else rest

-- How much the backlog grew in the window; 0 if it fell, which no test tells from no growth.
unfoldable pub backlog_delta : Config → ℕ → List (Option ℕ × ℕ) → ℕ
unfolding ends inside
backlog_delta cfg now samples = elim (ends (inside cfg now samples)) [
  | none ↦ 0
  | some ((_, n), (_, n')) ↦ n' - n
]

-- What `assess` measures.
pub record Signals : Type 0 where
  pub repeat : ℕ
  pub repeat_family : ℕ
  pub age_s : ℕ
  pub delta : ℕ

unfoldable pub measure :
    (String → String) → Config → ℕ → List (Option ℕ × ℕ) → Alert → List Alert → Signals
unfolding exact_times family_times streak_times streak_start backlog_delta
measure family cfg now backlog a hs = record {
  repeat = length (exact_times family cfg now a hs);
  repeat_family = length (family_times family cfg now a hs);
  age_s = now - streak_start (streak_times family cfg now a hs) now cfg.streak_gap_s;
  delta = backlog_delta cfg now backlog;
}
