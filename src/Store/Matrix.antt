-- ===== src/Store/Matrix.antt =====
-- The message matrix: which deliveries are reserved, and what the others leave (vp/vpstore.py).
use voice_pod_dispatcher.Prelude.{
  ℕ, ◌+◌, String, ◌≡◌, refl, ap, ◌∙◌, Bool, false, Option, none, some, [], ◌∷◌, length, str_of,
}
use voice_pod_dispatcher.Store.Schema.{Violation, Event, violation_line, Store, Env}
use voice_pod_dispatcher.Store.Tx.{ok, err, refused, pure, raise, gets, tx, ◌>>=◌}
use voice_pod_dispatcher.Store.Log.{
  EventArgs, event, event_seq, unless_known, find_idem, idem_key, write, edited, queue_line,
  insert_row, nothing,
}
use voice_pod_dispatcher.Store.Outcome.{AppendsWork, bind-ok, tx-ok, event-ok}
use voice_pod_dispatcher.Store.Traffic.{
  kind_of, pair_ok, record_violation, out_of_matrix, reserve_row, reserve_delivery, raise_or,
}

module _ (env : Env) (from to : String) where
  reserve_row-in :
      (type : String) (ref : Option String) (s : Store)
      → pair_ok (kind_of from s.db) (kind_of to s.db) type ≡ false
      → reserve_row env from to type ref s ≡ out_of_matrix env from to none s
  unfolding reserve_row gets ◌>>=◌
  reserve_row-in type ref s off = rw off refl

-- An event leaves violations and deliveries alone.
module _ (env : Env) (kind : String) (a : EventArgs) where
  unless_known-tables :
      (known : Option Event) (s : Store)
      → (p : ℕ × Bool) × ((unless_known env kind a known s).0 ≡ ok p)
        × ((unless_known env kind a known s).1.db.violations ≡ s.db.violations)
        × ((unless_known env kind a known s).1.db.deliveries ≡ s.db.deliveries)
  unfolding unless_known pure
  unless_known-tables none s = (_, refl, refl, refl)
  unless_known-tables (some e) s = (_, refl, refl, refl)

  event-tables :
      (s : Store)
      → ((event env kind a s).1.db.violations ≡ s.db.violations)
        × ((event env kind a s).1.db.deliveries ≡ s.db.deliveries)
  unfolding event event_seq gets pure ◌>>=◌
  event-tables s =
      let (p, fine, violated, delivered) =
        unless_known-tables (find_idem (idem_key kind a) s.db.events) s in
      (rw fine violated, rw fine delivered)

module _ (env : Env) (from to : String) where
  -- The row of a message outside the matrix.
  abbrev pub matrix_violation : Store → Violation
  matrix_violation s = record {
    id = length s.db.violations + 1;
    kind = "MATRIX";
    from_role = from;
    to_role = to;
    payload_sha = none;
    ts = env.now;
  }

  abbrev told : Store → EventArgs
  told s = record nothing {
    from_role = some from;
    to_role = some to;
    ref = some (str_of (length s.db.violations + 1));
  }

  abbrev written : Store → Store
  written s = record s {
    db = record s.db { violations = matrix_violation s ∷ s.db.violations };
    pending = violation_line (matrix_violation s) ∷ s.pending;
  }

  record_violation-ok :
      (s : Store)
      → record_violation env "MATRIX" from to none s
        ≡ (ok tt, (event env "VIOLATION" (told s) (written s)).1)
  unfolding record_violation write edited queue_line insert_row gets ◌>>=◌
  record_violation-ok s = event-ok env "VIOLATION" (told s) (written s)

  out_of_matrix-ok :
      (s : Store)
      → out_of_matrix env {A = String} from to none s
        ≡ (ok none, (event env "VIOLATION" (told s) (written s)).1)
  unfolding out_of_matrix pure
  out_of_matrix-ok s = bind-ok _ _ s (record_violation-ok s)

  raise_or-none : (s : Store) → raise_or {A = String} none s ≡ (err refused, s)
  unfolding raise_or raise
  raise_or-none s = refl

  -- Where every append succeeds, a delivery outside the matrix is refused, and the refusal leaves
  -- its trace: `reserve_delivery` raises Refused, no delivery row is written, and a violation row
  -- of kind MATRIX with the two roles is committed before the rows that were there.
  pub reserve_delivery-off_matrix :
      (type : String) (ref : Option String) (s : Store)
      → AppendsWork env
      → pair_ok (kind_of from s.db) (kind_of to s.db) type ≡ false
      → let r = reserve_delivery env from to type ref s in
        (r.0 ≡ err refused)
        × (r.1.db.violations ≡ matrix_violation s ∷ s.db.violations)
        × (r.1.db.deliveries ≡ s.db.deliveries)
  unfolding reserve_delivery
  reserve_delivery-off_matrix type ref s works off =
      let t : Store = record s { pending = [] } in
      let (violated, delivered) = event-tables env "VIOLATION" (told t) (written t) in
      let row = reserve_row-in env from to type ref t off ∙ out_of_matrix-ok t in
      let ends =
        bind-ok (tx env (reserve_row env from to type ref)) raise_or s
          (tx-ok env (reserve_row env from to type ref) s works row)
        ∙ raise_or-none _ in
      (
        ap (λ x. x.0) ends,
        ap (λ x. x.1.db.violations) ends ∙ violated,
        ap (λ x. x.1.db.deliveries) ends ∙ delivered,
      )
