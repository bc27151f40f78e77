-- ===== src/Store/Promotable.antt =====
-- What `promote_prepare` has checked when it succeeds (vp/vpstore.py).
use voice_pod_dispatcher.Prelude.{
  inl, inr, String, str_eq, eq_iff, ◌≡◌, refl, ap, sym, ◌∙◌, Bool-cases, true, false, is_among,
  Option, none, some, List, [], ◌∷◌, arith, find_row,
}
use voice_pod_dispatcher.Store.Status.{approved, is_shut}
use voice_pod_dispatcher.Store.Schema.{
  Item, Run, Review, code, accepted, Proof, pass, Reason, Db, Store, Env,
}
use voice_pod_dispatcher.Store.Tx.{Action, refused, ok, pure, raise, gets, some_or, ◌>>=◌}
use voice_pod_dispatcher.Store.Log.{current_run, require_run}
use voice_pod_dispatcher.Store.ItemRows.{find_item}
use voice_pod_dispatcher.Store.Success.{bind_ok, bind_never, tx_ok, none_no_name, raise_or_ok}
use voice_pod_dispatcher.Store.Reviews.{is_proof}
use voice_pod_dispatcher.Store.Promotions.{
  is_review, promotion_reason, review_reason, proof_reason, unapproved_item, first_unapproved,
  chain_predecessor_unpromoted, write_promotion, promote_prepare,
}

-- `require_run` looks for the current run and raises without one.
require_run-bind :
    {B : Type 0} (f : Run → Action B) (s : Store)
    → (require_run >>= f) s ≡ (some_or refused (current_run s.db) >>= f) s
unfolding require_run gets ◌>>=◌
require_run-bind f s = refl

-- The union has an independent, approving review of its code and a passing proof, both of this
-- candidate; its items are APPROVED, and `chain_predecessor_unpromoted` finds nothing to wait for.
pub record Promotable (env : Env) (items : List String) (sha review_id proof_id : String) (d : Db)
    : Type 0 where
  pub no_stop_file : env.stop_file ≡ false
  pub run : Run
  pub has_run : current_run d ≡ some run
  pub runs : is_shut run.status ≡ false
  pub review : Review
  pub has_review : find_row (is_review review_id) d.reviews ≡ some review
  pub of_code : review.subject ≡ code
  pub of_candidate : review.candidate_sha ≡ sha
  pub approves : review.verdict ≡ accepted
  pub is_independent : review.independent ≡ true
  pub proof : Proof
  pub has_proof : find_row (is_proof proof_id) d.proofs ≡ some proof
  pub passes : proof.status ≡ pass
  pub proves_candidate : proof.candidate_sha ≡ sha
  pub in_order : chain_predecessor_unpromoted sha d ≡ none
  pub all_approved :
      (i : String)
      → is_among i items ≡ true
      → (r : Item) × (find_item i d.items ≡ some r) × (r.status ≡ approved)

approved_item :
    (i : String) (o : Option Item) (rest : Option Reason)
    → unapproved_item i o rest ≡ none
    → (rest ≡ none) × (r : Item) × (o ≡ some r) × (r.status ≡ approved)
unfolding unapproved_item
approved_item i none rest h = cc
approved_item i (some r) rest h = (ground (arith, h), r, refl, ground (arith, h))

approved_all :
    (items : List String) (d : Db)
    → first_unapproved items d ≡ none
    → (i : String) → is_among i items ≡ true
    → (r : Item) × (find_item i d.items ≡ some r) × (r.status ≡ approved)
unfolding first_unapproved
approved_all [] d h i e = cc
approved_all (j ∷ items) d h i e =
    let (others, r, found, fine) =
      approved_item j (find_item j d.items) (first_unapproved items d) h in
    elim (Bool-cases (str_eq i j)) [
      | inl same ↦ (r, ap (λ x. find_item x d.items) ((eq_iff i j).0 same) ∙ found, fine)
      | inr other ↦ approved_all items d others i (ground (arith, e, other))
    ]

write_promotion-refuses :
    (env : Env) (items : List String) (sha base rid pid p : String) (reason : Reason) (s : Store)
    → (write_promotion env items sha base rid pid (some reason) s).0 ≡ ok (some p)
    → ⊥
unfolding write_promotion pure
write_promotion-refuses env items sha base rid pid p reason s h =
    bind_never _ _ s (some p)
      (λ _ t.
        bind_never _ _ t (some p)
          (λ _ u. bind_never _ _ u (some p) (λ _ _ e. none_no_name p (ok none) refl e)))
      h

write_promotion-ok :
    (env : Env) (items : List String) (sha base rid pid p : String) (o : Option Reason) (s : Store)
    → (write_promotion env items sha base rid pid o s).0 ≡ ok (some p)
    → o ≡ none
write_promotion-ok env items sha base rid pid p none s h = refl
write_promotion-ok env items sha base rid pid p (some reason) s h =
    absurd (write_promotion-refuses env items sha base rid pid p reason s h)

proof_checked :
    (o : Option Proof) (sha : String) (items : List String) (d : Db)
    → proof_reason o sha items d ≡ none
    → (p : Proof) × (o ≡ some p)
      × (p.status ≡ pass)
      × (p.candidate_sha ≡ sha)
      × (chain_predecessor_unpromoted sha d ≡ none)
      × (first_unapproved items d ≡ none)
unfolding proof_reason
proof_checked none sha items d h = cc
proof_checked (some p) sha items d h = (
  p,
  refl,
  ground (arith, h),
  ground (arith, h, eq_iff p.candidate_sha sha),
  ground (arith, h),
  ground (arith, h),
)

review_checked :
    (o : Option Review) (pf : Option Proof) (sha : String) (items : List String) (d : Db)
    → review_reason o pf sha items d ≡ none
    → (rv : Review) × (o ≡ some rv)
      × (rv.subject ≡ code)
      × (rv.candidate_sha ≡ sha)
      × (rv.verdict ≡ accepted)
      × (rv.independent ≡ true)
      × (proof_reason pf sha items d ≡ none)
unfolding review_reason
review_checked none pf sha items d h = cc
review_checked (some rv) pf sha items d h = (
  rv,
  refl,
  ground (arith, h),
  ground (arith, h, eq_iff rv.candidate_sha sha),
  ground (arith, h),
  ground (arith, h),
  ground (arith, h),
)

reason_checked :
    (env : Env) (r : Run) (o : Option Review) (pf : Option Proof) (sha : String)
    (items : List String) (d : Db)
    → promotion_reason env r o pf sha items d ≡ none
    → (env.stop_file ≡ false) × (is_shut r.status ≡ false) × (review_reason o pf sha items d ≡ none)
unfolding promotion_reason
reason_checked env r o pf sha items d h = (ground (arith, h), ground (arith, h), ground (arith, h))

-- The body of the transaction, for the run that it finds.
body_checked :
    (env : Env) (items : List String) (sha base rid pid p : String) (o : Option Run) (s : Store)
    → ((some_or refused o >>= λ r. gets (λ d. find_row (is_review rid) d.reviews) >>= λ rv.
          gets (λ d. find_row (is_proof pid) d.proofs) >>= λ pf.
          gets (promotion_reason env r rv pf sha items) >>= λ reason.
          write_promotion env items sha base rid pid reason)
        s).0
      ≡ ok (some p)
    → (r : Run) × (o ≡ some r)
      × (promotion_reason env r
            (find_row (is_review rid) s.db.reviews)
            (find_row (is_proof pid) s.db.proofs)
            sha
            items
            s.db
          ≡ none)
unfolding some_or raise pure gets ◌>>=◌
body_checked env items sha base rid pid p none s h = cc
body_checked env items sha base rid pid p (some r) s h =
    (r, refl, write_promotion-ok env items sha base rid pid p _ s h)

prepare_checked :
    (env : Env) (items : List String) (sha base rid pid p : String) (s : Store)
    → (promote_prepare env items sha base rid pid s).0 ≡ ok p
    → (r : Run) × (current_run s.db ≡ some r)
      × (promotion_reason env r
            (find_row (is_review rid) s.db.reviews)
            (find_row (is_proof pid) s.db.proofs)
            sha
            items
            s.db
          ≡ none)
unfolding promote_prepare
prepare_checked env items sha base rid pid p s h =
    let (o, ran, raised) = bind_ok _ _ s p h in
    let named = raise_or_ok o p _ raised in
    let t : Store = record s { pending = [] } in
    body_checked env items sha base rid pid p (current_run s.db) t
      (ap (λ x. x.0) (sym (require_run-bind _ t)) ∙ tx_ok env _ s (some p) (ran ∙ ap ok named))

-- A promotion that is prepared meets every condition: whatever the store, if `promote_prepare`
-- succeeds there is no STOP file, the run is not shut, the review is an independent APPROVED review
-- of the code of this candidate, the proof is a PASS of this candidate, the check of the union that
-- it stands on finds no item to wait for, and every item that it names is APPROVED.
pub promote_prepare-Promotable :
    (env : Env) (items : List String) (sha base rid pid p : String) (s : Store)
    → (promote_prepare env items sha base rid pid s).0 ≡ ok p
    → Promotable env items sha rid pid s.db
promote_prepare-Promotable env items sha base rid pid p s h =
    let (run, has_run, no_reason) = prepare_checked env items sha base rid pid p s h in
    let (open_door, runs, reviewed) = reason_checked env run _ _ sha items s.db no_reason in
    let (rv, has_review, of_code, of_candidate, approves, apart, proved) =
      review_checked _ _ sha items s.db reviewed in
    let (pf, has_proof, passes, same, in_order, ready) = proof_checked _ sha items s.db proved in
    record {
      no_stop_file = open_door;
      run = run;
      has_run = has_run;
      runs = runs;
      review = rv;
      has_review = has_review;
      of_code = of_code;
      of_candidate = of_candidate;
      approves = approves;
      is_independent = apart;
      proof = pf;
      has_proof = has_proof;
      passes = passes;
      proves_candidate = same;
      in_order = in_order;
      all_approved = approved_all items s.db ready;
    }
