-- ===== src/Alerts/Severity.antt =====
-- vp/vpalerts.py: the severity of an alert, from the alerts before it.
use voice_pod_dispatcher.Prelude.{
  ℕ, ◌-◌, String, str_eq, Bool, false, not, ◌&&◌, ◌||◌, Option, none, some, List, [], ◌∷◌, ◌++◌,
  ◌==◌, if◌then◌else◌, ltb, leb, is_among, length,
}
use voice_pod_dispatcher.Gate.Words.{contains, upper}
use voice_pod_dispatcher.Alerts.Signals.{Config, Alert, Signals, measure}

pub data Tier : Type 0 where
  routine attention urgent : Tier

abbrev pub rank : Tier → ℕ
rank routine = 0
rank attention = 1
rank urgent = 2

-- max(tier, ATTENTION, key=TIERS.index)
abbrev pub stronger : Tier → Tier → Tier
stronger a b = if ltb (rank a) (rank b) then b else a

-- _FAILURE_WORDS
abbrev pub failure_words : List String
failure_words =
    "FAIL" ∷ "STUCK" ∷ "REFUSED" ∷ "MISSING" ∷ "CONFLICT" ∷ "TIMEOUT" ∷ "CRASH" ∷ "UNKNOWN"
    ∷ "CAPPED" ∷ "EXPIRED" ∷ "DOWN" ∷ "OWED" ∷ []

abbrev pub has_one_of : String → List String → Bool
has_one_of s [] = false
has_one_of s (t ∷ ts) = contains s t || has_one_of s ts

unfoldable pub looks_like_failure : String → Bool
looks_like_failure kind = has_one_of (upper kind) failure_words

abbrev pub strongest : Signals → ℕ
strongest s = if ltb s.repeat s.repeat_family then s.repeat_family else s.repeat

unfoldable pub by_repeat : Config → (patterned : Bool) → Signals → Tier
by_repeat cfg patterned s =
    if patterned && leb cfg.repeat_urgent (strongest s)
    then urgent
    else if patterned && leb cfg.repeat_attention (strongest s)
    then attention
    else routine

unfoldable pub by_age : Config → (patterned : Bool) → Signals → Tier → Tier
by_age cfg patterned s tier =
    if patterned && leb cfg.age_urgent_s s.age_s
    then urgent
    else if patterned && leb cfg.age_attention_s s.age_s
    then stronger tier attention
    else tier

unfoldable pub by_backlog : Config → (watches : Bool) → Signals → Tier → Tier
by_backlog cfg watches s tier =
    if watches && leb cfg.backlog_urgent s.delta
    then urgent
    else if watches && leb cfg.backlog_attention s.delta
    then stronger tier attention
    else tier

unfoldable pub by_floor : Config → (kind : String) → Signals → Tier → Tier
unfolding looks_like_failure
by_floor cfg kind s tier =
    if is_among kind cfg.floor_urgent
    then urgent
    else if not (is_among kind cfg.floor_routine)
        && rank tier == 0
        && s.repeat == 1
        && not (str_eq kind "PACKET_RETRIED")
        && looks_like_failure kind
    then attention
    else tier

unfoldable pub severity : Config → (kind : String) → Signals → Tier
unfolding by_repeat by_age by_backlog by_floor
severity cfg kind s =
    let patterned = not (is_among kind cfg.floor_routine) in
    by_floor cfg kind s (
      by_backlog cfg (is_among kind cfg.backlog_kinds) s
        (by_age cfg patterned s (by_repeat cfg patterned s)))

abbrev pub time_of : (clock : ℕ) → Alert → ℕ
time_of clock a = elim a.ts [ none ↦ clock | some t ↦ t ]

-- `now` is the time of the alert, or the clock where it has none.
unfoldable pub assess :
    (String → String)
    → Config
    → (clock : ℕ) → List (Option ℕ × ℕ)
    → Alert
    → List Alert
    → Tier × Signals
unfolding measure severity
assess family cfg clock backlog a hs =
    let now = time_of clock a in
    let s = measure family cfg now backlog a hs in (severity cfg a.kind s, s)

-- should_notify
unfoldable pub should_notify : Tier → Bool
should_notify t = rank t == 2

unfoldable pub keep_since : ℕ → (t : ℕ) → List Alert → List Alert
keep_since lo t [] = []
keep_since lo t (h ∷ hs) =
    let rest = keep_since lo t hs in
    if leb lo (elim h.ts [ none ↦ t | some x ↦ if x == 0 then t else x ]) then h ∷ rest else rest

-- What `annotate` keeps of the alerts that it has seen, `a` the last of them.
unfoldable pub remember : Config → Alert → List Alert → List Alert
unfolding keep_since
remember cfg a seen = elim a.ts [
  | none ↦ seen
  | some t ↦ if ltb 2000 (length seen) then keep_since (t - cfg.age_horizon_s) t seen else seen
]

-- annotate, with the alerts that were seen; the oldest first.
unfoldable pub annotate :
    (String → String)
    → Config
    → (clock : ℕ) → List (Option ℕ × ℕ)
    → (seen alerts : List Alert) → List (Alert × (Tier × Signals))
unfolding assess remember
annotate family cfg clock backlog seen [] = []
annotate family cfg clock backlog seen (a ∷ as') =
    (a, assess family cfg clock backlog a seen)
    ∷ annotate family cfg clock backlog (remember cfg a (seen ++ a ∷ [])) as'
