-- ===== src/Store/Claiming.antt =====
-- `claim`: who may build an item, on which revision (vp/vpstore.py).
use voice_pod_dispatcher.Prelude.{
  ℕ, ◌+◌, String, ◌≡◌, refl, ap, ◌∙◌, Bool, true, false, not, ◌&&◌, Option, some, List, [], ◌∷◌,
  truthy, same_text,
}
use voice_pod_dispatcher.Store.Status.{Status, building, is_shut}
use voice_pod_dispatcher.Store.Schema.{Item, Run, Store, Env}
use voice_pod_dispatcher.Store.Tx.{
  Action, Error, refused, conflict, ok, err, pure, raise, gets, some_or, raise_if, do_if, tx, ◌>>=◌,
}
use voice_pod_dispatcher.Store.Log.{current_run, require_run, event, nothing}
use voice_pod_dispatcher.Store.ItemRows.{
  find_item, get_item, set_item, change_item, may_move, rev_differs, Field, set_builder,
  set_worktree, moved, apply_field, apply_fields,
}
use voice_pod_dispatcher.Store.Items.{claim_body, claim}
use voice_pod_dispatcher.Store.Outcome.{
  AppendsWork, flushed, bind-ok, bind-err, tx-raises, get_item-ok, raise_if-ok, tx-ok, tx-err,
  event-ok, items-event, changed_row, set_item-ok, find_item-change_item,
}

pub do_if-skip :
    (b : Bool) (m : Action (Unit {0})) (s : Store) → b ≡ false → do_if b m s ≡ (ok tt, s)
unfolding do_if pure
do_if-skip b m s h = rw h

pub require_run-ok : (s : Store) (r : Run) → current_run s.db ≡ some r → require_run s ≡ (ok r, s)
unfolding require_run gets some_or pure ◌>>=◌
require_run-ok s r h = rw h

raise_if-err : (b : Bool) (e : Error) (s : Store) → b ≡ true → raise_if b e s ≡ (err e, s)
unfolding raise_if raise
raise_if-err b e s h = rw h

set_item-stale :
    (env : Env) (i : String) (new : Status) (expected : Option ℕ) (fields : List Field) (r : Item)
    (s : Store)
    → find_item i s.db.items ≡ some r
    → rev_differs expected r.rev ≡ true
    → set_item env i new expected fields s ≡ (err conflict, s)
unfolding set_item get_item gets some_or raise_if raise pure ◌>>=◌
set_item-stale env i new expected fields r s found stale = rw found (rw stale)

-- The item has another builder.
abbrev pub other_builder : Item → String → Bool
other_builder r role = truthy r.builder_role && not (same_text r.builder_role (some role))

-- A running run, no STOP file, and the item's row.
module _ (env : Env) (item role worktree : String) (expected : Option ℕ) (s : Store) (run : Run)
    (r : Item) (open_door : env.stop_file ≡ false) (has_run : current_run s.db ≡ some run)
    (runs : is_shut run.status ≡ false) (found : find_item item s.db.items ≡ some r) where
  fields : List Field
  fields = set_builder (some role) ∷ set_worktree (some worktree) ∷ []

  start : Store
  start = record s { pending = [] }

  claimed : Store
  claimed =
      (event env "CLAIM" (record nothing { item = some item; role = some role; ref = some role })
        (change_item env item building fields r start).1).1

  claim_body-ok :
      other_builder r role ≡ false
      → rev_differs expected r.rev ≡ false
      → may_move r.status building ≡ true
      → claim_body env item role worktree expected start ≡ (ok tt, claimed)
  unfolding claim_body claimed start fields
  claim_body-ok mine fresh legal =
      bind-ok _ _ _ (do_if-skip _ _ _ open_door)
      ∙ bind-ok _ _ _ (require_run-ok _ run has_run)
      ∙ bind-ok _ _ _ (raise_if-ok _ _ _ runs)
      ∙ bind-ok _ _ _ (get_item-ok item _ r found)
      ∙ bind-ok _ _ _ (raise_if-ok _ _ _ mine)
      ∙ bind-ok _ _ _ (set_item-ok env item building _ r _ expected found fresh legal)
      ∙ event-ok env "CLAIM" _ _

  claim_body-err :
      other_builder r role ≡ true
      → claim_body env item role worktree expected start ≡ (err refused, start)
  unfolding claim_body start
  claim_body-err other =
      bind-ok _ _ _ (do_if-skip _ _ _ open_door)
      ∙ bind-ok _ _ _ (require_run-ok _ run has_run)
      ∙ bind-ok _ _ _ (raise_if-ok _ _ _ runs)
      ∙ bind-ok _ _ _ (get_item-ok item _ r found)
      ∙ bind-err _ _ _ (raise_if-err _ _ _ other)

  claim_body-stale :
      other_builder r role ≡ false
      → rev_differs expected r.rev ≡ true
      → claim_body env item role worktree expected start ≡ (err conflict, start)
  unfolding claim_body start
  claim_body-stale mine stale =
      bind-ok _ _ _ (do_if-skip _ _ _ open_door)
      ∙ bind-ok _ _ _ (require_run-ok _ run has_run)
      ∙ bind-ok _ _ _ (raise_if-ok _ _ _ runs)
      ∙ bind-ok _ _ _ (get_item-ok item _ r found)
      ∙ bind-ok _ _ _ (raise_if-ok _ _ _ mine)
      ∙ bind-err _ _ _ (set_item-stale env item building expected _ r _ found stale)

  claimed_row : Item
  claimed_row = changed_row env item building fields r start

  found_claimed : find_item item claimed.db.items ≡ some claimed_row
  unfolding claimed claimed_row start
  found_claimed =
      rw (items-event env "CLAIM" _ _)
        (find_item-change_item env item building fields r start found)

  claimed_row_fields :
      (claimed_row.builder_role ≡ some role)
      × (claimed_row.worktree ≡ some worktree)
      × (claimed_row.status ≡ building)
      × (claimed_row.rev ≡ r.rev + 1)
  unfolding claimed_row changed_row moved apply_fields apply_field fields
  claimed_row_fields = (refl, refl, refl, refl)

  -- In a running run with no STOP file, where every append succeeds, a role claims an item that no
  -- other role holds, at the revision that it expects (if it names one), from a status that may move
  -- to BUILDING: the verb returns BUILDING, and the item's row has that status, the role, its
  -- worktree and the next revision. READY is no such status; PAUSED is one.
  pub claim-ok :
      AppendsWork env
      → (truthy r.builder_role && not (same_text r.builder_role (some role))) ≡ false
      → rev_differs expected r.rev ≡ false
      → may_move r.status building ≡ true
      → ((claim env item role worktree expected s).0 ≡ ok building)
        × (r' : Item) × (find_item item (claim env item role worktree expected s).1.db.items
            ≡ some r')
        × (r'.builder_role ≡ some role)
        × (r'.worktree ≡ some worktree)
        × (r'.status ≡ building)
        × (r'.rev ≡ r.rev + 1)
  unfolding claim pure start claimed
  claim-ok works mine fresh legal =
      let s₁ : Store = record claimed { pending = []; disk = flushed env claimed } in
      let (role', tree', status', rev') = claimed_row_fields in
      let body : Action (Unit {0}) = claim_body env item role worktree expected in
      let read : Item → Action Status = λ row. pure row.status in
      let ends =
        bind-ok (tx env body) (λ _. get_item item >>= read) s
          (tx-ok env body s works (claim_body-ok mine fresh legal))
        ∙ bind-ok (get_item item) read s₁ (get_item-ok item s₁ claimed_row found_claimed) in
      (rw ends (ap ok status'), claimed_row, rw ends found_claimed, role', tree', status', rev')

  -- One builder to an item: in a running run with no STOP file, `claim` of an item that another
  -- role holds raises Refused and changes no table.
  claim_by_other :
      (truthy r.builder_role && not (same_text r.builder_role (some role))) ≡ true
      → ((claim env item role worktree expected s).0 ≡ err refused)
        × ((claim env item role worktree expected s).1.db ≡ s.db)
  unfolding claim start
  claim_by_other other =
      let body : Action (Unit {0}) = claim_body env item role worktree expected in
      tx-raises env body _ s (tx-err env body s (claim_body-err other))

  -- Optimistic concurrency: in a running run with no STOP file, `claim` of an item that no other role
  -- holds, at another revision than its row has, raises Conflict and changes no table.
  claim_at_stale_rev :
      (truthy r.builder_role && not (same_text r.builder_role (some role))) ≡ false
      → rev_differs expected r.rev ≡ true
      → ((claim env item role worktree expected s).0 ≡ err conflict)
        × ((claim env item role worktree expected s).1.db ≡ s.db)
  unfolding claim start
  claim_at_stale_rev mine stale =
      let body : Action (Unit {0}) = claim_body env item role worktree expected in
      tx-raises env body _ s (tx-err env body s (claim_body-stale mine stale))
