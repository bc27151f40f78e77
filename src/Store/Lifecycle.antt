-- ===== src/Store/Lifecycle.antt =====
-- The life of an item: what any history of verbs can do to its status and its revision
-- (vp/vpstore.py, ITEM_TRANSITIONS and `_set_item`).
use voice_pod_dispatcher.Prelude.{
  subst, ℕ, ◌+◌, sym, ◌∙◌, ◌⊎◌, String, str_eq, eq_iff, ◌≡◌, refl, Bool, true, Option, none, some,
  List, inl, inr, arith, update_row, Bool-cases,
}
use voice_pod_dispatcher.Store.Status.{Status, preparing}
use voice_pod_dispatcher.Store.Schema.{Item, Db, Store, Env}
use voice_pod_dispatcher.Store.Log.{Edit, attempts, edited, insert_row}
use voice_pod_dispatcher.Store.ItemRows.{
  named, find_item, Field, moved, Touch, pin, plan_by, final_by, rebase, join_union, may_move,
  touched, union_cancel_from, back_to_preparing,
}
use voice_pod_dispatcher.Store.Lookup.{
  find_item-update_row, find_item-insert_row, item-moved, rev-moved, status-moved, item-touched,
}
use voice_pod_dispatcher.Store.Rule.{Rule, IsPlain, with_items}
use voice_pod_dispatcher.Store.Commands.{Command, history}
use voice_pod_dispatcher.Store.Preserve.{history-keeps}

-- What one revision may do to the status: keep it, move along the transition table, or the reset of
-- `union_cancel`.
pub data Move : Status → Status → Type 0 where
  along : {a b : Status} → may_move a b ≡ true → Move a b
  cancelled : {a b : Status} → union_cancel_from a ≡ true → b ≡ preparing → Move a b

-- From one status to another in so many revisions.
pub data Reach (a : Status) : ℕ → Status → Type 0 where
  here : Reach a 0 a
  next : {n : ℕ} {b c : Status} → Reach a n b → Move b c → Reach a (n + 1) c

-- The row of the item `i`, which had status `a` and revision `n`.
pub record Tracks (i : String) (a : Status) (n : ℕ) (d : Db) : Type 0 where
  pub row : Item
  pub found : find_item i d.items ≡ some row
  pub count : ℕ
  pub reached : Reach a count row.status
  pub revised : row.rev ≡ n + count
  pub unchanged : row.rev ≡ n → row.status ≡ a

-- What one statement may make of a row: the next revision, or the same one with the same status.
abbrev Advances : (r t : Item) → Type 0
Advances r t =
    ((t.rev ≡ r.rev + 1) × Move r.status t.status) ⊎ ((t.rev ≡ r.rev) × (t.status ≡ r.status))

same-may_move : (b : Status) → may_move b b ≡ true
same-may_move b = ground arith

Advances-moved :
    (new : Status) (leaving : Bool) (last : Option String) (fields : List Field) (now : ℕ)
    (r : Item)
    → may_move r.status new ≡ true
    → Advances r (moved new leaving last fields now r)
Advances-moved new leaving last fields now r legal = inl (
  rev-moved new leaving last fields now r,
  rw (status-moved new leaving last fields now r) (along legal),
)

Advances-touched : (t : Touch) (r : Item) → Advances r (touched t r)
unfolding touched
Advances-touched (pin x) r = inr (refl, refl)
Advances-touched (plan_by x) r = inr (refl, refl)
Advances-touched (final_by x) r = inr (refl, refl)
Advances-touched (rebase b now) r = inl (refl, along (same-may_move r.status))
Advances-touched (join_union sha uid now) r = inl (refl, along (same-may_move r.status))

Advances-back :
    (candidate : Option String) (now : ℕ) (r : Item)
    → union_cancel_from r.status ≡ true
    → Advances r (back_to_preparing candidate now r)
unfolding back_to_preparing
Advances-back candidate now r stacked = inl (refl, cancelled stacked refl)

item-back :
    (candidate : Option String) (now : ℕ) (r : Item)
    → (back_to_preparing candidate now r).item ≡ r.item
unfolding back_to_preparing
item-back candidate now r = refl

pub same_row : {o : Option Item} (r r' : Item) → o ≡ some r → o ≡ some r' → r ≡ r'
same_row r r' p q = cc

module _ (j : String) (a : Status) (n : ℕ) where
  Tracks-next :
      {d e : Db} (t : Tracks j a n d) (r : Item)
      → find_item j e.items ≡ some r
      → Advances t.row r
      → Tracks j a n e
  Tracks-next t r found (inl (raised, step)) = record {
    row = r;
    found = found;
    count = t.count + 1;
    reached = next t.reached step;
    revised = omega (arith, t.revised, raised);
    unchanged = λ e. absurd (omega (arith, t.revised, raised));
  }
  Tracks-next t r found (inr (same_rev, kept)) = record {
    row = r;
    found = found;
    count = t.count;
    reached = rw kept t.reached;
    revised = same_rev ∙ t.revised;
    unchanged = λ e. kept ∙ t.unchanged (sym same_rev ∙ e);
  }

  Tracks-same : {d e : Db} (t : Tracks j a n d) → find_item j e.items ≡ some t.row → Tracks j a n e
  Tracks-same t found = record {
    row = t.row;
    found = found;
    count = t.count;
    reached = t.reached;
    revised = t.revised;
    unchanged = t.unchanged;
  }

  Tracks-update :
      (i : String) (f : Item → Item) (d : Db)
      → ((r : Item) → (f r).item ≡ r.item)
      → ((r : Item) → find_item i d.items ≡ some r → Advances r (f r))
      → Tracks j a n d
      → Tracks j a n (with_items (update_row (named i) f) d)
  Tracks-update i f d keyed advances t = elim (Bool-cases (str_eq i j)) [
    | inl same ↦
        Tracks-next t (f t.row)
          (rw (find_item-update_row i j f d.items keyed) (ground (arith, t.found)))
          (advances t.row (rw ((eq_iff i j).0 same) t.found))
    | inr other ↦
        Tracks-same t (rw (find_item-update_row i j f d.items keyed) (ground (arith, t.found)))
  ]

  Tracks-edit : (e : Edit) → IsPlain e → (d : Db) → Tracks j a n d → Tracks j a n (edited e d)
  unfolding edited
  Tracks-edit (attempts f) plain d t = absurd plain
  Tracks-edit _ plain d t = Tracks-same t t.found

  Tracks-insert :
      (r : Item) (d : Db)
      → find_item r.item d.items ≡ none
      → Tracks j a n d
      → Tracks j a n (with_items (insert_row r) d)
  Tracks-insert r d free t =
      Tracks-same t
        (rw (find_item-insert_row r j d.items) (ground (arith, t.found, eq_iff r.item j, free)))

  Tracks-rule : Rule (Tracks j a n)
  unfolding edited
  Tracks-rule = record {
    edit = Tracks-edit;
    log = λ e d t. Tracks-same t t.found;
    start = λ x d free t. Tracks-same t t.found;
    end = λ i status result detail session now x d found live t. Tracks-same t t.found;
    lose = λ i now d t. Tracks-same t t.found;
    move = λ i new leaving last fields now r d found legal.
        Tracks-update i (moved new leaving last fields now) d
          (item-moved new leaving last fields now)
          λ r' found'.
            Advances-moved new leaving last fields now r'
              (rw (same_row r r' found found') at legal);
    touch = λ i x d. Tracks-update i (touched x) d (item-touched x) λ r found. Advances-touched x r;
    cancel = λ i candidate now r d found stacked.
        Tracks-update i (back_to_preparing candidate now) d (item-back candidate now)
          λ r' found'. Advances-back candidate now r' (rw (same_row r r' found found') at stacked);
    insert = λ r d free begins. Tracks-insert r d free;
  }

-- The item `i` has a row in which a history began, and the status and revision of that row.
module _ (steps : List (Env × Command)) (s : Store) (i : String) (r : Item)
    (found : find_item i s.db.items ≡ some r) where
  Tracks-history : Tracks i r.status r.rev (history steps s).db
  Tracks-history = history-keeps (Tracks-rule i r.status r.rev) steps s (record {
    row = r;
    found = found;
    count = 0;
    reached = here;
    revised = omega arith;
    unchanged = λ e. refl;
  })

  -- Whatever verbs are called, with whatever arguments and in whatever worlds (a STOP file, a
  -- roster, failing appends): an item that has a row keeps one, and each revision that it has got
  -- since kept its status, moved it by one step of ITEM_TRANSITIONS, or was the reset of
  -- `union_cancel`. So a verb that raises the revision by one makes one such step.
  pub history-Reach :
      (r' : Item) × (n : ℕ) × (find_item i (history steps s).db.items ≡ some r')
      × (r'.rev ≡ r.rev + n)
      × Reach r.status n r'.status
  history-Reach = let t = Tracks-history in (t.row, t.count, t.found, t.revised, t.reached)

  -- A client that read an item and finds its revision unchanged after any history finds its status
  -- unchanged too: no verb changes a status without raising the revision.
  pub same_rev_same_status :
      (r' : Item)
      → find_item i (history steps s).db.items ≡ some r'
      → r'.rev ≡ r.rev
      → r'.status ≡ r.status
  same_rev_same_status r' found' same =
      let t = Tracks-history in
      let one = same_row t.row r' t.found found' in
      subst (λ x. x.status ≡ r.status) one (t.unchanged (rw one same))
