-- ===== src/Store/PauseResume.antt =====
-- `item_pause`, then `item_resume` (vp/vpstore.py).
use voice_pod_dispatcher.Prelude.{
  ◌+◌, String, ◌≡◌, refl, ap, ◌∙◌, true, false, not, Option, none, some, [], ◌∷◌, arith,
}
use voice_pod_dispatcher.Store.Status.{
  Status, paused, promoted, stopped, blocked, status_in, same_status,
}
use voice_pod_dispatcher.Store.Schema.{Item, Store, Env}
use voice_pod_dispatcher.Store.Tx.{ok, pure}
use voice_pod_dispatcher.Store.Log.{event, nothing}
use voice_pod_dispatcher.Store.ItemRows.{
  find_item, change_item, may_move, set_paused_from, set_note, moved, apply_field, apply_fields,
}
use voice_pod_dispatcher.Store.Items.{back_to, item_pause, item_resume}
use voice_pod_dispatcher.Store.Lookup.{status-moved, rev-moved}
use voice_pod_dispatcher.Store.Outcome.{
  AppendsWork, flushed, bind-ok, get_item-ok, raise_if-ok, tx-ok, event-ok, items-event,
  changed_row, set_item-ok, find_item-change_item,
}

-- The chain of a verb that reads its item, checks it, sets it and logs one event.
module _ (env : Env) (works : AppendsWork env) where
  paused_store : String → Option String → Item → Store → Store
  paused_store item why r s =
      (event env "PAUSE" (record nothing { item = some item })
        (change_item env item paused (set_paused_from (some r.status) ∷ set_note why ∷ []) r
          (record s { pending = [] })).1).1

  item_pause-ok :
      (item : String) (why : Option String) (s : Store) (r : Item)
      → find_item item s.db.items ≡ some r
      → status_in r.status (paused ∷ promoted ∷ stopped ∷ []) ≡ false
      → may_move r.status paused ≡ true
      → item_pause env item why s ≡ (
        ok paused,
        record (paused_store item why r s) {
          pending = [];
          disk = flushed env (paused_store item why r s);
        },
      )
  unfolding item_pause paused_store pure
  item_pause-ok item why s r found fit legal = tx-ok env _ s works (
      bind-ok _ _ _ (get_item-ok item _ r found)
      ∙ bind-ok _ _ _ (raise_if-ok _ _ _ fit)
      ∙ bind-ok _ _ _ (set_item-ok env item paused _ r _ none found refl legal)
      ∙ bind-ok _ _ _ (event-ok env _ _ _))

  resumed_store : String → Item → Store → Store
  resumed_store item r s =
      (event env "RESUME" (record nothing { item = some item })
        (change_item env item (back_to r.paused_from) (set_paused_from none ∷ []) r
          (record s { pending = [] })).1).1

  item_resume-ok :
      (item : String) (s : Store) (r : Item)
      → find_item item s.db.items ≡ some r
      → same_status r.status paused ≡ true
      → may_move r.status (back_to r.paused_from) ≡ true
      → item_resume env item s ≡ (
        ok (back_to r.paused_from),
        record (resumed_store item r s) {
          pending = [];
          disk = flushed env (resumed_store item r s);
        },
      )
  unfolding item_resume resumed_store pure
  item_resume-ok item s r found held legal = tx-ok env _ s works (
      bind-ok _ _ _ (get_item-ok item _ r found)
      ∙ bind-ok _ _ _ (raise_if-ok _ _ _ (ap not held))
      ∙ bind-ok _ _ _ (set_item-ok env item (back_to r.paused_from) _ r _ none found refl legal)
      ∙ bind-ok _ _ _ (event-ok env _ _ _))

  -- The row between the two, and the row after them.
  held_row : String → Option String → Item → Store → Item
  held_row item why r s =
      changed_row env item paused (set_paused_from (some r.status) ∷ set_note why ∷ []) r
        (record s { pending = [] })

  held_row_fields :
      (item : String) (why : Option String) (r : Item) (s : Store)
      → ((held_row item why r s).status ≡ paused)
        × ((held_row item why r s).paused_from ≡ some r.status)
  unfolding held_row changed_row moved apply_fields apply_field
  held_row_fields item why r s = (refl, refl)

  held_row_rev :
      (item : String) (why : Option String) (r : Item) (s : Store)
      → (held_row item why r s).rev + 1 ≡ r.rev + 2
  unfolding held_row changed_row
  held_row_rev item why r s = omega (arith, rev-moved paused _ _ _ env.now r)

  -- The item is neither halted for good nor PAUSED or BLOCKED.
  abbrev CanPause : Item → Type 0
  CanPause r = status_in r.status (paused ∷ promoted ∷ stopped ∷ blocked ∷ []) ≡ false

  can_pause :
      (st : Status)
      → status_in st (paused ∷ promoted ∷ stopped ∷ blocked ∷ []) ≡ false
      → (status_in st (paused ∷ promoted ∷ stopped ∷ []) ≡ false)
        × (may_move st paused ≡ true)
        × (may_move paused st ≡ true)
  can_pause st h = ground arith

  found_held :
      (item : String) (why : Option String) (s : Store) (r : Item)
      → find_item item s.db.items ≡ some r
      → find_item item (paused_store item why r s).db.items ≡ some (held_row item why r s)
  unfolding paused_store held_row
  found_held item why s r found =
      rw (items-event env "PAUSE" _ _) (find_item-change_item env item paused _ r _ found)

  found_resumed :
      (item : String) (s : Store) (r : Item)
      → find_item item s.db.items ≡ some r
      → (r' : Item) × (find_item item (resumed_store item r s).db.items ≡ some r')
        × (r'.status ≡ back_to r.paused_from)
        × (r'.rev ≡ r.rev + 1)
  unfolding resumed_store changed_row
  found_resumed item s r found = (
    changed_row env item (back_to r.paused_from) (set_paused_from none ∷ []) r
        (record s { pending = [] }),
    rw (items-event env "RESUME" _ _)
        (find_item-change_item env item (back_to r.paused_from) _ r _ found),
    status-moved _ _ _ _ _ r,
    rev-moved _ _ _ _ _ r,
  )

  -- Where every append succeeds, an item that can be paused is paused by `item_pause`, and
  -- `item_resume` after it succeeds and gives the item the status that it had, with a revision
  -- that is greater by two.
  pub pause-resume :
      (item : String) (why : Option String) (s : Store) (r : Item)
      → find_item item s.db.items ≡ some r
      → status_in r.status (paused ∷ promoted ∷ stopped ∷ blocked ∷ []) ≡ false
      → let s₁ = (item_pause env item why s).1 in
        ((item_pause env item why s).0 ≡ ok paused)
        × ((item_resume env item s₁).0 ≡ ok r.status)
        × (r' : Item) × (find_item item (item_resume env item s₁).1.db.items ≡ some r')
        × (r'.status ≡ r.status)
        × (r'.rev ≡ r.rev + 2)
  pause-resume item why s r found able =
      let (fit, legal, back) = can_pause r.status able in
      let h : Item = held_row item why r s in
      let (held, from) = held_row_fields item why r s in
      let s₁ : Store = record (paused_store item why r s) {
        pending = [];
        disk = flushed env (paused_store item why r s);
      } in
      let found₁ = found_held item why s r found in
      let resumes = item_resume-ok item s₁ h found₁ (rw held refl) (rw (held, from) back) in
      let (r', found', status', rev') = found_resumed item s₁ h found₁ in
      rw (item_pause-ok item why s r found fit legal) (
        refl,
        rw resumes (rw from refl),
        r',
        rw resumes found',
        (rw from at status'),
        rev' ∙ held_row_rev item why r s,
      )
