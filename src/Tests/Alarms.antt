-- ===== src/Tests/Alarms.antt =====
-- Alerts of two packets, and what the theorems state of them.
use voice_pod_dispatcher.Prelude.{ℕ, String, ◌≡◌, true, some, List, [], ◌∷◌, arith}
use voice_pod_dispatcher.Alerts.Signals.{Alert, Signals, defaults}
use voice_pod_dispatcher.Alerts.Severity.{annotate, severity, should_notify}
use voice_pod_dispatcher.Alerts.Trimming.{Ordered, assess_all, annotate-assess_all}
use voice_pod_dispatcher.Alerts.Tiers.{should_notify-severity}

abbrev failure : ℕ → Alert
failure t = record { kind = "GATE_FAILED"; task = some "L17-R1"; first_word = ""; ts = some t }

abbrev same_packet : String → String
same_packet subject = subject

abbrev stream : List Alert
stream = failure 100 ∷ failure 200000 ∷ failure 201000 ∷ []

in_order : Ordered 0 0 stream
unfolding Ordered
in_order = (omega arith, (omega arith, (omega arith, tt)))

annotate_example :
    annotate same_packet defaults 0 [] [] stream ≡ assess_all same_packet defaults 0 [] [] stream
annotate_example = annotate-assess_all same_packet defaults 0 [] stream in_order

abbrev repeating : Signals
repeating = record { repeat = 3; repeat_family = 3; age_s = 2000; delta = 0 }

pages_example : should_notify (severity defaults "GATE_FAILED" repeating) ≡ true
pages_example = should_notify-severity defaults "GATE_FAILED" repeating
