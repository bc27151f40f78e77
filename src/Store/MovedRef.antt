-- ===== src/Store/MovedRef.antt =====
-- What `promote_commit` does where the ref has moved (vp/vpstore.py).
use voice_pod_dispatcher.Prelude.{
  String, str_eq, ◌≡◌, ap, ◌∙◌, true, false, some, [], find_row, update_row,
}
use voice_pod_dispatcher.Store.Schema.{Promotion, intent, to_reconcile, ref_moved, Store, Env}
use voice_pod_dispatcher.Store.Tx.{ok, pure, gets, some_or, raise_if, ◌>>=◌}
use voice_pod_dispatcher.Store.Log.{event, nothing, write, edited}
use voice_pod_dispatcher.Store.Outcome.{AppendsWork, bind-ok, tx-ok, event-ok, items-event}
use voice_pod_dispatcher.Store.Promotions.{
  is_promotion, is_committed, is_intent, commit_body, reconcile_row, commit_or_reconcile,
  promote_commit,
}

is_committed-intent :
    (p : Promotion)
    → p.status ≡ intent
    → (is_committed p.status ≡ false) × (is_intent p.status ≡ true)
is_committed-intent p fresh = (ap is_committed fresh, ap is_intent fresh)

module _ (env : Env) (promo_id expected actual : String) (p : Promotion)
    (moved : str_eq actual expected ≡ false) where
  reconciled : Store → Store
  reconciled s = record s {
    db = record s.db {
      promotions =
          update_row (is_promotion p.promo_id)
            (λ q. record q {
              status = to_reconcile;
              expected_ref = some expected;
              actual_ref = some actual;
              reason = some (ref_moved expected actual);
            })
            s.db.promotions;
    };
  }

  after : Store → Store
  after s =
      (event env "PROMOTE_RECONCILE" (record nothing { ref = some p.promo_id }) (reconciled s)).1

  reconcile_row-ok :
      (s : Store) → reconcile_row env p expected actual s ≡ (ok to_reconcile, after s)
  unfolding reconcile_row write edited after reconciled pure ◌>>=◌
  reconcile_row-ok s =
      bind-ok (event env "PROMOTE_RECONCILE" (record nothing { ref = some p.promo_id }))
        (λ _. pure to_reconcile) (reconciled s)
        (event-ok env "PROMOTE_RECONCILE" (record nothing { ref = some p.promo_id }) (reconciled s))

  commit_or_reconcile-moved :
      (s : Store) → commit_or_reconcile env p expected (some actual) s ≡ (ok to_reconcile, after s)
  unfolding commit_or_reconcile
  commit_or_reconcile-moved s = rw moved (reconcile_row-ok s)

  commit_body-moved :
      (s : Store)
      → find_row (is_promotion promo_id) s.db.promotions ≡ some p
      → p.status ≡ intent
      → commit_body env promo_id expected (some actual) s ≡ (ok to_reconcile, after s)
  unfolding commit_body gets some_or raise_if pure ◌>>=◌
  commit_body-moved s found fresh =
      let (open_row, is_fresh) = is_committed-intent p fresh in
      rw found (rw open_row (rw is_fresh (commit_or_reconcile-moved s)))

  -- Where every append succeeds, an intent whose ref is not the expected one is not committed:
  -- `promote_commit` returns RECONCILE, and every item's row is as it was.
  pub promote_commit-moved :
      (s : Store)
      → AppendsWork env
      → find_row (is_promotion promo_id) s.db.promotions ≡ some p
      → p.status ≡ intent
      → ((promote_commit env promo_id expected (some actual) s).0 ≡ ok to_reconcile)
        × ((promote_commit env promo_id expected (some actual) s).1.db.items ≡ s.db.items)
  unfolding promote_commit after reconciled
  promote_commit-moved s works found fresh =
      let ends = tx-ok env _ s works (commit_body-moved (record s { pending = [] }) found fresh) in
      (
        ap (λ x. x.0) ends,
        ap (λ x. x.1.db.items) ends
            ∙ items-event env "PROMOTE_RECONCILE" (record nothing { ref = some p.promo_id })
                (reconciled (record s { pending = [] })),
      )
