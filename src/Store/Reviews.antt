-- ===== src/Store/Reviews.antt =====
-- vp/vpstore.py: `review_record`, `proof_request` and `proof_record`.
use voice_pod_dispatcher.Prelude.{
  ℕ, String, str_eq, Bool, true, false, not, ◌&&◌, [], ◌∷◌, Option, none, some, if◌then◌else◌,
  find_row, update_row, select, latest, is_among, same_text, truthy, or_else,
}
use voice_pod_dispatcher.Store.Status.{
  Status, ready, assigned, building, grading, junior_satisfied, preparing, prepared, proof_pending,
  final_review, approved, blocked, same_status, status_in,
}
use voice_pod_dispatcher.Store.Schema.{
  Item, Review, Subject, plan, code, Verdict, accepted, findings_found, refused_outright, Proof,
  ProofStatus, requested, proof_running, pass, fail_product, fail_infra, unknown, cancelled, Db,
  Env,
}
use voice_pod_dispatcher.Store.Tx.{
  Action, pure, gets, raise, raise_if, do_if, for_each, some_or, tx, usage, refused, ◌>>=◌, ◌>>◌,
}
use voice_pod_dispatcher.Store.Log.{write, reviews, proofs, insert_row, next_id, event, nothing}
use voice_pod_dispatcher.Store.ItemRows.{get_item, set_item, touch_item, plan_by, final_by}

parse_subject : String → Option Subject
parse_subject s = if str_eq s "plan" then some plan else if str_eq s "code" then some code else none

parse_verdict : String → Option Verdict
parse_verdict s =
    if str_eq s "APPROVED"
    then some accepted
    else if str_eq s "FINDINGS"
    then some findings_found
    else if str_eq s "BLOCKED"
    then some refused_outright
    else none

abbrev is_plan : Subject → Bool
is_plan plan = true
is_plan code = false

-- The newest plan review of the item, by `ts`.
unfoldable pub plan_review : String → Db → Option Review
plan_review i d = latest (λ r. r.ts) (select (λ r. str_eq r.item i && is_plan r.subject) d.reviews)

-- prior_plan and prior_plan["reviewer_ref"] == reviewer_ref
unfoldable pub same_reviewer : Option Review → Option String → Bool
same_reviewer none ref = false
same_reviewer (some r) ref = same_text r.reviewer_ref ref

module _ (env : Env) where
  -- The checks of `review_record` on the item; the result is the column `independent`.
  unfoldable pub admit_review : Subject → Item → String → Option String → Action Bool
  admit_review code row candidate reviewer_ref = do
    raise_if (not (truthy row.candidate_sha)) refused
    raise_if (not (same_text row.candidate_sha (some candidate))) refused
    prior ← gets (plan_review row.item)
    raise_if (same_reviewer prior reviewer_ref) refused
    pure true
  admit_review plan row candidate reviewer_ref = do
    raise_if
        (not (
          status_in row.status
            (junior_satisfied ∷ preparing ∷ ready ∷ assigned ∷ building ∷ grading ∷ [])))
        refused
    pure false

  unfoldable pub block_after_review : String → String → Action (Unit {0})
  block_after_review item rid = do
    set_item env item blocked none []
    event env "BLOCKED" (record nothing { item = some item; ref = some rid })

  -- Where the verdict moves the item.
  unfoldable pub move_after_review :
      Subject → Verdict → Item → (reviewer_role rid : String) → Action (Unit {0})
  move_after_review plan v row reviewer_role rid = do
    touch_item row.item (plan_by reviewer_role)
    elim v [
      | accepted ↦
          do_if (same_status row.status junior_satisfied)
            (set_item env row.item preparing none [] >> pure tt)
      | findings_found ↦
          do_if (same_status row.status junior_satisfied)
            (set_item env row.item grading none [] >> pure tt)
      | refused_outright ↦ block_after_review row.item rid
    ]
  move_after_review code v row reviewer_role rid = do
    touch_item row.item (final_by reviewer_role)
    elim v [
      | accepted ↦
          raise_if (not (same_status row.status final_review)) refused
          >> set_item env row.item approved none []
          >> pure tt
      | findings_found ↦ set_item env row.item grading none [] >> pure tt
      | refused_outright ↦ block_after_review row.item rid
    ]

  unfoldable pub review_as :
      (item : String) (subject : Subject) (base candidate reviewer_role : String)
      (reviewer_ref : Option String) (verdict : Verdict) (document : Option String)
      → Action String
  review_as item subject base candidate reviewer_role reviewer_ref verdict document = tx env do
    row ← get_item item
    independent ← admit_review subject row candidate reviewer_ref
    rid ← next_id "review"
    write (
        reviews (
          insert_row (record {
            review_id = rid;
            item = item;
            subject = subject;
            base_sha = base;
            candidate_sha = candidate;
            reviewer_role = reviewer_role;
            reviewer_ref = reviewer_ref;
            independent = independent;
            verdict = verdict;
            findings = document;
            ts = env.now;
          })))
    event env "REVIEW"
        (record nothing { item = some item; role = some reviewer_role; ref = some rid })
    move_after_review subject verdict row reviewer_role rid
    pure rid

  unfoldable pub review_record :
      (item subject base candidate reviewer_role : String) (reviewer_ref : Option String)
      (verdict : String) (document : Option String)
      → Action String
  unfolding parse_subject parse_verdict
  review_record item subject base candidate reviewer_role reviewer_ref verdict document = do
    s ← some_or refused (parse_subject subject)
    v ← some_or usage (parse_verdict verdict)
    review_as item s base candidate reviewer_role reviewer_ref v document

abbrev pub is_proof : String → Proof → Bool
is_proof i p = str_eq p.proof_id i

abbrev pub of_candidate : String → Item → Bool
of_candidate sha r = same_text r.candidate_sha (some sha)

abbrev still_open : ProofStatus → Bool
still_open requested = true
still_open proof_running = true
still_open _ = false

unfoldable pub recorded :
    (status : ProofStatus) (counts artifacts pipeline_id workflow_id : Option String) (now : ℕ)
    → Proof
    → Proof
recorded status counts artifacts pipeline_id workflow_id now p = record p {
  status = status;
  counts = or_else counts p.counts;
  artifacts_path = or_else artifacts p.artifacts_path;
  pipeline_id = or_else pipeline_id p.pipeline_id;
  workflow_id = or_else workflow_id p.workflow_id;
  ts_done = if still_open status then none else some now;
}

-- Where a recorded proof moves an item of its candidate.
unfoldable pub proof_move : ProofStatus → Status → Option Status
proof_move proof_running prepared = some proof_pending
proof_move pass prepared = some final_review
proof_move pass proof_pending = some final_review
proof_move fail_product prepared = some grading
proof_move fail_product proof_pending = some grading
proof_move fail_infra proof_pending = some prepared
proof_move unknown proof_pending = some prepared
proof_move cancelled proof_pending = some prepared
proof_move _ _ = none

abbrev is_product_failure : ProofStatus → Bool
is_product_failure fail_product = true
is_product_failure _ = false

module _ (env : Env) where
  prepare_row : Item → Action (Unit {0})
  prepare_row row =
      do_if (same_status row.status preparing) (set_item env row.item prepared none [] >> pure tt)

  unfoldable pub proof_request : (candidate_sha base kind paths : String) → Action String
  unfolding prepare_row
  proof_request candidate_sha base kind paths =
      if not (is_among kind ("targeted" ∷ "full" ∷ []))
      then raise usage
      else tx env do
        pid ← next_id "proof"
        write (
            proofs (
              insert_row (record {
                proof_id = pid;
                candidate_sha = candidate_sha;
                base_sha = base;
                kind = kind;
                pipeline_id = none;
                workflow_id = none;
                status = requested;
                counts = some paths;
                artifacts_path = none;
                ts_req = env.now;
                ts_done = none;
              })))
        rows ← gets (λ d. select (of_candidate candidate_sha) d.items)
        for_each rows prepare_row
        event env "PROOF_REQUEST" (record nothing { ref = some pid })
        pure pid

  unfoldable pub apply_move :
      (proof_id : String) → Bool → String → Option Status → Action (Unit {0})
  apply_move proof_id failed item none = pure tt
  apply_move proof_id failed item (some st) = do
    set_item env item st none []
    do_if failed (
        event env "PROOF_FAIL"
          (record nothing { item = some item; ref = some proof_id; escalate = true }))

  unfoldable pub proof_record :
      (proof_id : String) (status : ProofStatus)
      (counts artifacts pipeline_id workflow_id : Option String)
      → Action String
  unfolding recorded
  proof_record proof_id status counts artifacts pipeline_id workflow_id = tx env do
    found ← gets (λ d. find_row (is_proof proof_id) d.proofs)
    p ← some_or refused found
    write (
        proofs (
          update_row (is_proof proof_id)
            (recorded status counts artifacts pipeline_id workflow_id env.now)))
    rows ← gets (λ d. select (of_candidate p.candidate_sha) d.items)
    for_each rows (λ row.
        apply_move proof_id (is_product_failure status) row.item (proof_move status row.status))
    event env "PROOF_RECORD" (record nothing { ref = some proof_id })
    pure proof_id
