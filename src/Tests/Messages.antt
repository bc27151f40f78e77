-- ===== src/Tests/Messages.antt =====
-- A delivery outside the message matrix.
use voice_pod_dispatcher.Prelude.{◌≡◌, refl, false, none, [], ◌∷◌, find_row}
use voice_pod_dispatcher.Gate.Words.{upper}
use voice_pod_dispatcher.Store.Status.{building}
use voice_pod_dispatcher.Store.Tx.{err, refused}
use voice_pod_dispatcher.Store.Traffic.{kind_of, pair_ok, matrix_ok, reserve_delivery}
use voice_pod_dispatcher.Store.Matrix.{matrix_violation, reserve_delivery-off_matrix}
use voice_pod_dispatcher.Tests.Samples.{world, store_with}

builder_to_owner :
    pair_ok
      (kind_of "builder" (store_with building).db)
      (kind_of "owner" (store_with building).db)
      "REPORT"
    ≡ false
unfolding kind_of pair_ok matrix_ok find_row upper
builder_to_owner = refl

off_matrix_example :
    let r = reserve_delivery world "builder" "owner" "REPORT" none (store_with building) in
    (r.0 ≡ err refused)
    × (r.1.db.violations ≡ matrix_violation world "builder" "owner" (store_with building) ∷ [])
    × (r.1.db.deliveries ≡ [])
off_matrix_example =
    reserve_delivery-off_matrix world "builder" "owner" "REPORT" none (store_with building)
      (λ n. refl) builder_to_owner
