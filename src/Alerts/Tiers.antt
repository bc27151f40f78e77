-- ===== src/Alerts/Tiers.antt =====
-- The severity by its signals (vp/vpalerts.py).
use voice_pod_dispatcher.Prelude.{String, ◌≡◌, Bool, not, ◌&&◌, ◌||◌, leb, is_among, arith}
use voice_pod_dispatcher.Alerts.Signals.{Config, Signals}
use voice_pod_dispatcher.Alerts.Severity.{
  strongest, by_repeat, by_age, by_backlog, by_floor, severity, should_notify,
}

-- What pages: a kind that stops the driver, a pattern of a kind that is not routine, or a backlog
-- that grows while nothing is worked.
abbrev pub pages : Config → String → Signals → Bool
pages cfg kind s =
    is_among kind cfg.floor_urgent
    || (not (is_among kind cfg.floor_routine)
        && (leb cfg.repeat_urgent (strongest s) || leb cfg.age_urgent_s s.age_s))
    || (is_among kind cfg.backlog_kinds && leb cfg.backlog_urgent s.delta)

-- `should_notify` holds exactly of an alert whose kind is one of `floor_urgent`, of one whose kind
-- is none of `floor_routine` and that repeats `repeat_urgent` times or is open for `age_urgent_s`,
-- and of one of the `backlog_kinds` while the backlog grows by `backlog_urgent`.
pub should_notify-severity :
    (cfg : Config) (kind : String) (s : Signals)
    → should_notify (severity cfg kind s) ≡ pages cfg kind s
unfolding should_notify severity by_repeat by_age by_backlog by_floor
should_notify-severity cfg kind s = ground arith
