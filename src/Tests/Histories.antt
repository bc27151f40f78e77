-- ===== src/Tests/Histories.antt =====
-- The theorems about histories, at a history of verbs on one item.
use voice_pod_dispatcher.Prelude.{
  ℕ, ◌+◌, ◌≤◌, String, ◌≡◌, refl, none, some, List, [], ◌∷◌, inl, arith, find_row, latest,
}
use voice_pod_dispatcher.Store.Status.{building, approved, promoted}
use voice_pod_dispatcher.Store.Schema.{Item, Env}
use voice_pod_dispatcher.Store.Tx.{
  refused, err, tx, finish, append_lines, oldest_first, gets, some_or, raise_if, do_if, raise, pure,
  ◌>>=◌,
}
use voice_pod_dispatcher.Store.Log.{current_run, require_run}
use voice_pod_dispatcher.Store.ItemRows.{find_item, get_item}
use voice_pod_dispatcher.Store.Items.{item_pin, claim, claim_body, item_resume}
use voice_pod_dispatcher.Store.Commands.{
  Command, history, execute, discard, do_item_pause, do_item_resume, do_turn_start, do_claim,
  do_item_pin, do_promote_commit,
}
use voice_pod_dispatcher.Store.Lifecycle.{Reach, history-Reach, same_rev_same_status}
use voice_pod_dispatcher.Store.Terminal.{history_terminal}
use voice_pod_dispatcher.Store.SingleTurn.{running_turns, history-OneTurn}
use voice_pod_dispatcher.Store.Refusals.{error_changes_nothing}
use voice_pod_dispatcher.Tests.Samples.{world, stopped_world, store_with, item_in, found}

abbrev steps : List (Env × Command)
steps =
    (world, do_item_pause "D1" none)
    ∷ (stopped_world, do_claim "D1" "b2" "wt" none)
    ∷ (world, do_turn_start "D1" "build" none none none none none none)
    ∷ (world, do_item_resume "D1")
    ∷ []

-- The item is PAUSED and resumed; the claim by another role and the second turn are refused.
history-Reach_example :
    (r' : Item) × (n : ℕ) × (find_item "D1" (history steps (store_with building)).db.items
      ≡ some r')
    × (r'.rev ≡ 4 + n)
    × Reach building n r'.status
history-Reach_example =
    history-Reach steps (store_with building) "D1" (item_in building) (found building)

abbrev pinning : List (Env × Command)
pinning = (world, do_item_pin "D2" "s1") ∷ (world, do_claim "D1" "b2" "wt" none) ∷ []

after_pinning :
    find_item "D1" (history pinning (store_with building)).db.items ≡ some (item_in building)
unfolding history execute discard item_pin claim claim_body tx finish append_lines oldest_first
    get_item find_item gets some_or raise_if do_if raise pure require_run current_run ◌>>=◌ find_row
    latest
after_pinning = refl

same_rev_example : building ≡ building
same_rev_example =
    same_rev_same_status pinning (store_with building) "D1" (item_in building) (found building)
      (item_in building) after_pinning refl

terminal_example :
    (r' : Item) × (find_item "D1" (history steps (store_with promoted)).db.items ≡ some r')
    × (r'.status ≡ promoted)
terminal_example =
    history_terminal steps (store_with promoted) "D1" (item_in promoted) (found promoted) (inl refl)

abbrev promoting : List (Env × Command)
promoting = (world, do_promote_commit "promo-00001" "ref" none) ∷ []

abbrev promoted_item : Item
promoted_item = record (item_in approved) { rev = 5; status = promoted; ts = 100 }

one_turn : (i : String) → running_turns i (store_with building).db.attempts ≤ 1
unfolding running_turns
one_turn i = ground arith

OneTurn_example : running_turns "D1" (history steps (store_with building)).db.attempts ≤ 1
OneTurn_example = history-OneTurn steps (store_with building) one_turn "D1"

resume_refused : (execute world (do_item_resume "D1") (store_with building)).0 ≡ err refused
unfolding execute discard item_resume tx finish get_item find_item gets some_or raise_if raise pure
    ◌>>=◌ find_row
resume_refused = refl

error_example :
    (execute world (do_item_resume "D1") (store_with building)).1.db ≡ (store_with building).db
error_example =
    error_changes_nothing world (do_item_resume "D1") (store_with building) refused tt
      resume_refused
