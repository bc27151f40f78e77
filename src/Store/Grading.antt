-- ===== src/Store/Grading.antt =====
-- What `findings` does to the item that it grades (vp/vpstore.py).
use voice_pod_dispatcher.Prelude.{
  ◌⊎◌, ℕ, ◌+◌, String, ◌≡◌, refl, ◌∙◌, Bool, true, false, ◌||◌, none, some, List, [], ◌∷◌, arith,
  leb, if◌then◌else◌, Bool-cases, inl, inr, truthy,
}
use voice_pod_dispatcher.Store.Status.{
  Status, grading, building, blocked, junior_satisfied, final_review, status_in,
}
use voice_pod_dispatcher.Store.Schema.{Item, Store, Env}
use voice_pod_dispatcher.Store.Tx.{Action, refused, ok, err, pure, ◌>>=◌, ◌>>◌}
use voice_pod_dispatcher.Store.Log.{EventArgs, event, nothing}
use voice_pod_dispatcher.Store.ItemRows.{
  find_item, set_item, change_item, may_move, Field, set_round, moved, apply_field, apply_fields,
}
use voice_pod_dispatcher.Store.Findings.{
  FindingsDoc, validate_findings, all_pass, to_senior, satisfy, charge_round, settle, findings,
}
use voice_pod_dispatcher.Store.Outcome.{
  AppendsWork, flushed, bind-ok, get_item-ok, raise_if-ok, tx-ok, tx-err, bind-err,
  set_item-illegal, event-ok, items-event, changed_row, set_item-ok, find_item-change_item,
  status-changed_row,
}

-- The status and the round that findings lead to: a satisfied grade leaves the round alone, a
-- failed one counts a round, and the round that reaches the cap blocks the item.
unfoldable pub outcome : Bool → (cap round : ℕ) → Status × ℕ
outcome satisfied cap round =
    if satisfied
    then (junior_satisfied, round)
    else if leb cap (round + 1)
    then (blocked, round + 1)
    else (building, round + 1)

-- The action ends well, with this status, and the item's row has it and this round.
pub record EndsWith (item : String) (m : Action Status) (s : Store) (st : Status) (round : ℕ)
    : Type 0 where
  pub after : Store
  pub ends : m s ≡ (ok st, after)
  pub row : Item
  pub found : find_item item after.db.items ≡ some row
  pub has_status : row.status ≡ st
  pub has_round : row.round ≡ round

module _ (env : Env) (item : String) (s : Store) (r : Item)
    (found : find_item item s.db.items ≡ some r) (graded : r.status ≡ grading) where
  legal_from_grading :
      (st : Status)
      → status_in st (building ∷ junior_satisfied ∷ blocked ∷ []) ≡ true
      → may_move r.status st ≡ true
  legal_from_grading st h = rw graded (ground arith)

  EndsWith-set :
      (st : Status) (fields : List Field) (round : ℕ)
      → status_in st (building ∷ junior_satisfied ∷ blocked ∷ []) ≡ true
      → (changed_row env item st fields r s).round ≡ round
      → EndsWith item (do set_item env item st none fields; pure st) s st round
  unfolding pure
  EndsWith-set st fields round fits counted = record {
    after = (change_item env item st fields r s).1;
    ends =
        bind-ok _ _ _
          (set_item-ok env item st fields r s none found refl (legal_from_grading st fits));
    row = changed_row env item st fields r s;
    found = find_item-change_item env item st fields r s found;
    has_status = status-changed_row env item st fields r s;
    has_round = counted;
  }

module _ (env : Env) (item : String) where
  after_event :
      {m : Action Status} {st : Status} {round : ℕ} (kind : String) (a : EventArgs) (s : Store)
      → EndsWith item m (event env kind a s).1 st round
      → EndsWith item (event env kind a >>= λ _. m) s st round
  after_event kind a s w = record {
    after = w.after;
    ends = bind-ok _ _ _ (event-ok env kind a s) ∙ w.ends;
    row = w.row;
    found = w.found;
    has_status = w.has_status;
    has_round = w.has_round;
  }

  settle-outcome :
      (satisfied : Bool) (s : Store) (r : Item)
      → find_item item s.db.items ≡ some r
      → r.status ≡ grading
      → EndsWith item
          (settle env item r.round satisfied)
          s
          (outcome satisfied env.round_cap r.round).0
          (outcome satisfied env.round_cap r.round).1
  unfolding settle satisfy charge_round outcome changed_row moved apply_fields apply_field
  settle-outcome true s r found graded =
      EndsWith-set env item s r found graded junior_satisfied [] r.round refl refl
  settle-outcome false s r found graded = elim (Bool-cases (leb env.round_cap (r.round + 1))) [
    | inl capped ↦ rw capped (
        after_event "ROUND_CAP" _ s (
          EndsWith-set env item _ r (rw (items-event env "ROUND_CAP" _ s) found) graded blocked
            (set_round (r.round + 1) ∷ []) (r.round + 1) refl refl))
    | inr room ↦ rw room (
        EndsWith-set env item s r found graded building (set_round (r.round + 1) ∷ []) (r.round + 1)
          refl refl)
  ]

abbrev pub is_satisfied : Bool → FindingsDoc → Bool
is_satisfied unverified doc = all_pass doc || to_senior unverified doc

-- Where every append succeeds, valid findings for an item in GRADING are recorded: the verb returns
-- the status that `outcome` gives for them, and the item's row has that status and round. So a
-- grade with only PASS lines, or with UNKNOWN and no FAIL lines once the driver says so, satisfies
-- the junior and charges no round; any other charges one, and blocks the item at the round cap.
pub findings-outcome :
    (env : Env) (item : String) (doc : FindingsDoc) (unverified : Bool) (s : Store) (r : Item)
    → AppendsWork env
    → find_item item s.db.items ≡ some r
    → r.status ≡ grading
    → validate_findings doc ≡ true
    → let (st, round) = outcome (is_satisfied unverified doc) env.round_cap r.round in
      EndsWith item (findings env item doc unverified) s st round
unfolding findings
findings-outcome env item doc unverified s r works found graded valid =
    let t : Store = record s { pending = [] } in
    let told : EventArgs = record nothing {
      item = some item;
      attempt = doc.attempt;
      ref = if truthy doc.commit then doc.commit else r.candidate_sha;
      idempotent = true;
    } in
    let w =
      settle-outcome env item (is_satisfied unverified doc) (event env "FINDINGS" told t).1 r
        (rw (items-event env "FINDINGS" told t) found) graded in
    record {
      after = record w.after { pending = []; disk = flushed env w.after };
      ends = rw valid (
          tx-ok env _ s works (
            bind-ok _ _ _ (get_item-ok item t r found)
            ∙ bind-ok _ _ _ (raise_if-ok _ _ _ (rw graded refl))
            ∙ bind-ok _ _ _ (event-ok env "FINDINGS" told t)
            ∙ w.ends));
      row = w.row;
      found = w.found;
      has_status = w.has_status;
      has_round = w.has_round;
    }

settle-illegal :
    (env : Env) (item : String) (satisfied : Bool) (s : Store) (r : Item)
    → find_item item s.db.items ≡ some r
    → r.status ≡ final_review
    → (satisfied ≡ true) ⊎ (leb env.round_cap (r.round + 1) ≡ false)
    → settle env item r.round satisfied s ≡ (err refused, s)
unfolding settle satisfy charge_round
settle-illegal env item true s r found final case =
    bind-err _ _ _ (set_item-illegal env item junior_satisfied [] r s found (rw final refl))
settle-illegal env item false s r found final (inl clash) = cc
settle-illegal env item false s r found final (inr room) = rw room (
    bind-err _ _ _
      (set_item-illegal env item building (set_round (r.round + 1) ∷ []) r s found (rw final refl)))

-- `findings` lets an item in FINAL_REVIEW through its check, and then neither JUNIOR_SATISFIED nor
-- BUILDING is a legal transition from there: unless a failed grade reaches the round cap, the verb
-- raises, and no table has changed.
pub findings_in_final_review :
    (env : Env) (item : String) (doc : FindingsDoc) (unverified : Bool) (s : Store) (r : Item)
    → find_item item s.db.items ≡ some r
    → r.status ≡ final_review
    → validate_findings doc ≡ true
    → (is_satisfied unverified doc ≡ true) ⊎ (leb env.round_cap (r.round + 1) ≡ false)
    → ((findings env item doc unverified s).0 ≡ err refused)
      × ((findings env item doc unverified s).1.db ≡ s.db)
unfolding findings
findings_in_final_review env item doc unverified s r found final valid case =
    let t : Store = record s { pending = [] } in
    let told : EventArgs = record nothing {
      item = some item;
      attempt = doc.attempt;
      ref = if truthy doc.commit then doc.commit else r.candidate_sha;
      idempotent = true;
    } in
    let s₁ : Store = (event env "FINDINGS" told t).1 in
    let fails =
      settle-illegal env item (is_satisfied unverified doc) s₁ r
        (rw (items-event env "FINDINGS" told t) found) final case in
    rw valid (
      tx-err env _ s (
        bind-ok _ _ _ (get_item-ok item t r found)
        ∙ bind-ok _ _ _ (raise_if-ok _ _ _ (rw final refl))
        ∙ bind-ok _ _ _ (event-ok env "FINDINGS" told t)
        ∙ fails))
