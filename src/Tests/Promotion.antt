-- ===== src/Tests/Promotion.antt =====
-- `promote_prepare` at a store where a union of one item is ready.
use voice_pod_dispatcher.Prelude.{
  ◌≡◌, refl, true, none, some, [], ◌∷◌, find_row, latest, select, pad5,
}
use voice_pod_dispatcher.Store.Status.{approved}
use voice_pod_dispatcher.Store.Schema.{Review, code, accepted, Proof, pass, Store}
use voice_pod_dispatcher.Store.Tx.{
  ok, tx, finish, append_lines, oldest_first, gets, some_or, pure, ◌>>=◌,
}
use voice_pod_dispatcher.Store.Log.{
  current_run, require_run, write, edited, event, event_seq, unless_known, find_idem, insert_row,
  idem_key, mirror, next_id,
}
use voice_pod_dispatcher.Store.ItemRows.{find_item}
use voice_pod_dispatcher.Store.Traffic.{raise_or}
use voice_pod_dispatcher.Store.Promotions.{
  promotion_reason, review_reason, proof_reason, first_unapproved, unapproved_item,
  chain_predecessor_unpromoted, write_promotion, promote_prepare,
}
use voice_pod_dispatcher.Store.Promotable.{Promotable, promote_prepare-Promotable}
use voice_pod_dispatcher.Tests.Samples.{world, store_with}

abbrev approval : Review
approval = record {
  review_id = "review-00001";
  item = "D1";
  subject = code;
  base_sha = "base";
  candidate_sha = "cand";
  reviewer_role = "senior-1";
  reviewer_ref = none;
  independent = true;
  verdict = accepted;
  findings = none;
  ts = 5;
}

abbrev passing_proof : Proof
passing_proof = record {
  proof_id = "proof-00001";
  candidate_sha = "cand";
  base_sha = "base";
  kind = "full";
  pipeline_id = none;
  workflow_id = none;
  status = pass;
  counts = none;
  artifacts_path = none;
  ts_req = 5;
  ts_done = some 6;
}

abbrev store_to_prepare : Store
store_to_prepare = record {
  db = record (store_with approved).db { reviews = approval ∷ []; proofs = passing_proof ∷ [] };
  pending = [];
  disk = [];
}

prepared :
    (promote_prepare world
      ("D1" ∷ [])
      "cand"
      "base"
      "review-00001"
      "proof-00001"
      store_to_prepare).0
    ≡ ok "promo-00001"
unfolding promote_prepare require_run current_run latest gets some_or pure ◌>>=◌ find_row
    promotion_reason review_reason proof_reason first_unapproved unapproved_item
    chain_predecessor_unpromoted select find_item write_promotion next_id pad5 write edited event
    event_seq unless_known find_idem idem_key insert_row mirror tx finish append_lines oldest_first
    raise_or
prepared = refl

prepared_example :
    Promotable world ("D1" ∷ []) "cand" "review-00001" "proof-00001" store_to_prepare.db
prepared_example =
    promote_prepare-Promotable world ("D1" ∷ []) "cand" "base" "review-00001" "proof-00001"
      "promo-00001" store_to_prepare prepared
