-- ===== src/Tests/Verbs.antt =====
-- The theorems about single verbs, each at a store in which its verb is called.
use voice_pod_dispatcher.Prelude.{◌≡◌, refl, true, false, none, some, [], ◌∷◌, inl, latest, all}
use voice_pod_dispatcher.Store.Status.{Status, building, grading, final_review, paused, ready}
use voice_pod_dispatcher.Store.Schema.{Item}
use voice_pod_dispatcher.Store.Tx.{refused, ok, err}
use voice_pod_dispatcher.Store.Log.{new_event, nothing, current_run}
use voice_pod_dispatcher.Store.ItemRows.{find_item}
use voice_pod_dispatcher.Store.Items.{assign, assign_body, claim, item_pause, item_resume}
use voice_pod_dispatcher.Store.Findings.{
  FindingsDoc, findings, validate_findings, all_pass, to_senior, has_verdict,
}
use voice_pod_dispatcher.Store.Refusals.{assign_under_stop}
use voice_pod_dispatcher.Store.PauseResume.{pause-resume}
use voice_pod_dispatcher.Store.Grading.{
  EndsWith, outcome, findings-outcome, findings_in_final_review,
}
use voice_pod_dispatcher.Store.Claiming.{claim-ok}
use voice_pod_dispatcher.Tests.Samples.{world, stopped_world, one_run, item_in, store_with, found}

has_run : (st : Status) → current_run (store_with st).db ≡ some one_run
unfolding current_run latest
has_run st = refl

assign_example :
    ((assign_body stopped_world "D1" 1 true (store_with ready)).1.db.events
      ≡ new_event stopped_world "STOP" (record nothing { item = some "D1" }) (store_with ready).db
        ∷ [])
    × ((assign stopped_world "D1" 1 true (store_with ready)).0 ≡ err refused)
    × ((assign stopped_world "D1" 1 true (store_with ready)).1.db ≡ (store_with ready).db)
assign_example =
    assign_under_stop stopped_world "D1" 1 true (store_with ready) one_run refl (has_run ready)

pause_example :
    let s₁ = (item_pause world "D1" none (store_with building)).1 in
    ((item_pause world "D1" none (store_with building)).0 ≡ ok paused)
    × ((item_resume world "D1" s₁).0 ≡ ok building)
    × (r' : Item) × (find_item "D1" (item_resume world "D1" s₁).1.db.items ≡ some r')
    × (r'.status ≡ building)
    × (r'.rev ≡ 6)
pause_example =
    pause-resume world (λ n. refl) "D1" none (store_with building) (item_in building)
      (found building) refl

-- One line that fails.
abbrev document : FindingsDoc
document = record {
  item = some "D1";
  lines = some (record { kind = some "test"; verdict = some "FAIL"; id = some "t1" } ∷ []);
  attempt = none;
  commit = none;
}

abbrev passing : FindingsDoc
passing = record {
  item = some "D1";
  lines = some (record { kind = some "test"; verdict = some "PASS"; id = some "t1" } ∷ []);
  attempt = none;
  commit = none;
}

document_valid : (validate_findings document ≡ true) × (validate_findings passing ≡ true)
unfolding validate_findings all
document_valid = (refl, refl)

findings_example :
    EndsWith "D1" (findings world "D1" document false) (store_with grading) building 2
unfolding outcome all_pass to_senior all has_verdict
findings_example =
    findings-outcome world "D1" document false (store_with grading) (item_in grading) (λ n. refl)
      (found grading) refl document_valid.0

final_review_example :
    ((findings world "D1" passing false (store_with final_review)).0 ≡ err refused)
    × ((findings world "D1" passing false (store_with final_review)).1.db
        ≡ (store_with final_review).db)
unfolding all_pass all has_verdict
final_review_example =
    findings_in_final_review world "D1" passing false (store_with final_review)
      (item_in final_review) (found final_review) refl document_valid.1 (inl refl)

claim_example :
    ((claim world "D1" "b1" "wt" (some 4) (store_with paused)).0 ≡ ok building)
    × (r' : Item) × (find_item "D1"
          (claim world "D1" "b1" "wt" (some 4) (store_with paused)).1.db.items
        ≡ some r')
    × (r'.builder_role ≡ some "b1")
    × (r'.worktree ≡ some "wt")
    × (r'.status ≡ building)
    × (r'.rev ≡ 5)
claim_example =
    claim-ok world "D1" "b1" "wt" (some 4) (store_with paused) one_run (item_in paused) refl
      (has_run paused) refl (found paused) (λ n. refl) refl refl refl
