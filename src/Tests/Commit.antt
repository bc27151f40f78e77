-- ===== src/Tests/Commit.antt =====
-- A prepared promotion whose ref has moved.
use voice_pod_dispatcher.Prelude.{◌≡◌, refl, some, find_row}
use voice_pod_dispatcher.Store.Schema.{to_reconcile}
use voice_pod_dispatcher.Store.Tx.{ok}
use voice_pod_dispatcher.Store.Promotions.{is_promotion, promote_commit}
use voice_pod_dispatcher.Store.MovedRef.{promote_commit-moved}
use voice_pod_dispatcher.Tests.Samples.{world, intended, store_to_promote}

found_intent : find_row (is_promotion "promo-00001") store_to_promote.db.promotions ≡ some intended
unfolding find_row
found_intent = refl

moved_example :
    ((promote_commit world "promo-00001" "old" (some "new") store_to_promote).0 ≡ ok to_reconcile)
    × ((promote_commit world "promo-00001" "old" (some "new") store_to_promote).1.db.items
        ≡ store_to_promote.db.items)
moved_example =
    promote_commit-moved world "promo-00001" "old" "new" intended refl store_to_promote (λ n. refl)
      found_intent refl
