-- ===== src/Store/Promotions.antt =====
-- vp/vpstore.py: promotion of a union, in two steps.
use voice_pod_dispatcher.Prelude.{
  String, str_eq, Bool, true, false, not, ◌&&◌, List, [], ◌∷◌, Option, none, some, if◌then◌else◌,
  ltb, find_row, update_row, select, truthy, or_else,
}
use voice_pod_dispatcher.Store.Status.{approved, promoted, same_status, is_shut}
use voice_pod_dispatcher.Store.Schema.{
  Item, Run, Review, Subject, plan, code, Verdict, accepted, Proof, ProofStatus, pass, Union,
  Promotion, PromotionStatus, refusal, intent, committed, to_reconcile, Reason, stop_file_present,
  run_is_shut, unknown_review, not_code, other_candidate, verdict_not_approved, not_independent,
  unknown_proof, not_pass, other_proof_candidate, chain_order, unknown_item, item_not_approved,
  ref_moved, Db, Env,
}
use voice_pod_dispatcher.Store.Tx.{
  Action, pure, gets, raise_if, for_each, some_or, tx, refused, conflict, ◌>>=◌, ◌>>◌,
}
use voice_pod_dispatcher.Store.Log.{
  write, promotions, insert_row, next_id, require_run, event, nothing,
}
use voice_pod_dispatcher.Store.ItemRows.{find_item, set_item}
use voice_pod_dispatcher.Store.Reviews.{is_proof}
use voice_pod_dispatcher.Store.Traffic.{raise_or}

-- ORDER BY no DESC LIMIT 1
newest_union : List Union → Option Union
newest_union [] = none
newest_union (u ∷ us) = elim (newest_union us) [
  | none ↦ some u
  | some v ↦ some (if ltb v.no u.no then u else v)
]

abbrev is_promoted : Item → Bool
is_promoted r = same_status r.status promoted

item_held : Option Item → Bool
item_held none = true
item_held (some r) = not (is_promoted r)

first_held : List String → Db → Option Reason
unfolding item_held
first_held [] d = none
first_held (i ∷ is) d =
    if item_held (find_item i d.items) then some (chain_order i) else first_held is d

held_by : Option Union → Db → Option Reason
held_by none d = none
held_by (some pred) d = first_held pred.items d

predecessor_of : Option Union → Db → Option Reason
unfolding newest_union held_by first_held
predecessor_of none d = none
predecessor_of (some u) d =
    held_by
      (newest_union (
        select (λ v. str_eq v.union_sha u.base_sha && not (str_eq v.union_id u.union_id)) d.unions))
      d

-- _chain_predecessor_unpromoted
unfoldable pub chain_predecessor_unpromoted : String → Db → Option Reason
unfolding predecessor_of
chain_predecessor_unpromoted sha d =
    predecessor_of (newest_union (select (λ u. str_eq u.union_sha sha) d.unions)) d

-- The check of one item, and the check of the items after it.
unfoldable pub unapproved_item : String → Option Item → Option Reason → Option Reason
unapproved_item i none rest = some (unknown_item i)
unapproved_item i (some r) rest =
    if same_status r.status approved then rest else some (item_not_approved i)

unfoldable pub first_unapproved : List String → Db → Option Reason
unfolding unapproved_item
first_unapproved [] d = none
first_unapproved (i ∷ is) d = unapproved_item i (find_item i d.items) (first_unapproved is d)

abbrev is_code : Subject → Bool
is_code code = true
is_code plan = false

abbrev is_accepted : Verdict → Bool
is_accepted accepted = true
is_accepted _ = false

abbrev is_pass : ProofStatus → Bool
is_pass pass = true
is_pass _ = false

-- The ladder of `promote_prepare` below the review.
unfoldable pub proof_reason : Option Proof → String → List String → Db → Option Reason
proof_reason none sha items d = some unknown_proof
proof_reason (some p) sha items d =
    if not (is_pass p.status)
    then some not_pass
    else if not (str_eq p.candidate_sha sha)
    then some other_proof_candidate
    else or_else (chain_predecessor_unpromoted sha d) (first_unapproved items d)

unfoldable pub review_reason :
    Option Review → Option Proof → String → List String → Db → Option Reason
unfolding proof_reason
review_reason none pf sha items d = some unknown_review
review_reason (some rv) pf sha items d =
    if not (is_code rv.subject)
    then some not_code
    else if not (str_eq rv.candidate_sha sha)
    then some other_candidate
    else if not (is_accepted rv.verdict)
    then some verdict_not_approved
    else if not rv.independent
    then some not_independent
    else proof_reason pf sha items d

-- Why `promote_prepare` refuses, if it does.
unfoldable pub promotion_reason :
    Env → Run → Option Review → Option Proof → String → List String → Db → Option Reason
unfolding review_reason
promotion_reason env r rv pf sha items d =
    if env.stop_file
    then some stop_file_present
    else if is_shut r.status
    then some run_is_shut
    else review_reason rv pf sha items d

abbrev pub is_review : String → Review → Bool
is_review i r = str_eq r.review_id i

abbrev pub is_promotion : String → Promotion → Bool
is_promotion i p = str_eq p.promo_id i

abbrev pub is_committed : PromotionStatus → Bool
is_committed committed = true
is_committed _ = false

abbrev pub is_intent : PromotionStatus → Bool
is_intent intent = true
is_intent _ = false

module _ (env : Env) where
  -- `_promotion_refuse`, and the row of an intent: a promotion row and its event.
  unfoldable pub write_promotion :
      (items : List String) (union_sha base review_id proof_id : String)
      → Option Reason
      → Action (Option String)
  write_promotion items union_sha base review_id proof_id (some reason) = do
    pid ← next_id "promo"
    write (
        promotions (
          insert_row (record {
            promo_id = pid;
            items = items;
            union_sha = union_sha;
            base_sha = base;
            review_id = review_id;
            proof_id = proof_id;
            status = refusal;
            expected_ref = none;
            actual_ref = none;
            reason = some reason;
            ts = env.now;
          })))
    event env "PROMOTE_REFUSED" (record nothing { ref = some pid })
    pure none
  write_promotion items union_sha base review_id proof_id none = do
    pid ← next_id "promo"
    write (
        promotions (
          insert_row (record {
            promo_id = pid;
            items = items;
            union_sha = union_sha;
            base_sha = base;
            review_id = review_id;
            proof_id = proof_id;
            status = intent;
            expected_ref = none;
            actual_ref = none;
            reason = none;
            ts = env.now;
          })))
    event env "PROMOTE_INTENT" (record nothing { ref = some pid })
    pure (some pid)

  -- The REFUSED row is committed, and the refusal is raised after the transaction.
  unfoldable pub promote_prepare :
      (items : List String) (union_sha base review_id proof_id : String) → Action String
  promote_prepare items union_sha base review_id proof_id = do
    pid ← tx env do
      r ← require_run
      rv ← gets (λ d. find_row (is_review review_id) d.reviews)
      pf ← gets (λ d. find_row (is_proof proof_id) d.proofs)
      reason ← gets (promotion_reason env r rv pf union_sha items)
      write_promotion items union_sha base review_id proof_id reason
    raise_or pid

  unfoldable pub commit_rows : Promotion → String → Option String → Action PromotionStatus
  commit_rows p expected actual = do
    write (
        promotions (
          update_row (is_promotion p.promo_id) (λ q. record q {
            status = committed;
            expected_ref = some expected;
            actual_ref = if truthy actual then actual else some expected;
          })))
    for_each p.items (λ it. set_item env it promoted none [] >> pure tt)
    event env "PROMOTE_COMMITTED" (record nothing { ref = some p.promo_id })
    pure committed

  unfoldable pub reconcile_row : Promotion → String → String → Action PromotionStatus
  reconcile_row p expected actual = do
    write (
        promotions (
          update_row (is_promotion p.promo_id) (λ q. record q {
            status = to_reconcile;
            expected_ref = some expected;
            actual_ref = some actual;
            reason = some (ref_moved expected actual);
          })))
    event env "PROMOTE_RECONCILE" (record nothing { ref = some p.promo_id })
    pure to_reconcile

  unfoldable pub commit_or_reconcile : Promotion → String → Option String → Action PromotionStatus
  commit_or_reconcile p expected none = commit_rows p expected none
  commit_or_reconcile p expected (some actual) =
      if str_eq actual expected
      then commit_rows p expected (some actual)
      else reconcile_row p expected actual

  -- The transaction of `promote_commit`.
  unfoldable pub commit_body :
      (promo_id expected_ref : String) → Option String → Action PromotionStatus
  commit_body promo_id expected_ref actual_ref = do
    found ← gets (λ d. find_row (is_promotion promo_id) d.promotions)
    p ← some_or refused found
    raise_if (is_committed p.status) conflict
    raise_if (not (is_intent p.status)) refused
    commit_or_reconcile p expected_ref actual_ref

  unfoldable pub promote_commit :
      (promo_id expected_ref : String) → Option String → Action PromotionStatus
  unfolding commit_body
  promote_commit promo_id expected_ref actual_ref =
      tx env (commit_body promo_id expected_ref actual_ref)

-- status IN ('INTENT','RECONCILE')
unfoldable pub reconcilable_promotions : Db → List Promotion
reconcilable_promotions d =
    select (λ p. elim p.status [ intent ↦ true | to_reconcile ↦ true | _ ↦ false ]) d.promotions
