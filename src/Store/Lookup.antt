-- ===== src/Store/Lookup.antt =====
-- What the statements on the table `item` do to the row of a name (vp/vpstore.py).
use voice_pod_dispatcher.Prelude.{
  ℕ, ◌+◌, String, str_eq, eq_iff, ◌≡◌, refl, Bool, Option, none, some, List, [], ◌∷◌, if◌then◌else◌,
  arith, find_row, update_row,
}
use voice_pod_dispatcher.Store.Status.{Status}
use voice_pod_dispatcher.Store.Schema.{Item}
use voice_pod_dispatcher.Store.Log.{insert_row}
use voice_pod_dispatcher.Store.ItemRows.{
  named, find_item, Field, set_group, apply_field, apply_fields, moved, Touch, touched,
}

abbrev pub image : (Item → Item) → Option Item → Option Item
image f none = none
image f (some r) = some (f r)

-- A statement that keeps the primary key writes the row of its name and no other.
pub find_item-update_row :
    (i j : String) (f : Item → Item) (rows : List Item)
    → ((r : Item) → (f r).item ≡ r.item)
    → find_item j (update_row (named i) f rows)
      ≡ (if str_eq i j then image f (find_item j rows) else find_item j rows)
unfolding find_item find_row update_row
find_item-update_row i j f [] same = ground arith
find_item-update_row i j f (x ∷ xs) same = ground (
  arith,
  same x,
  eq_iff x.item i,
  eq_iff x.item j,
  eq_iff i j,
  eq_iff (f x).item j,
  find_item-update_row i j f xs same,
)

pub find_item-insert_row :
    (r : Item) (j : String) (rows : List Item)
    → find_item j (insert_row r rows) ≡ (if str_eq r.item j then some r else find_item j rows)
unfolding find_item find_row insert_row
find_item-insert_row r j rows = refl

-- No keyword argument of `_set_item` writes the key, the status or the revision.
pub record Agrees (r t : Item) : Type 0 where
  pub same_item : t.item ≡ r.item
  pub same_rev : t.rev ≡ r.rev
  pub same_status : t.status ≡ r.status

pub Agrees-apply_fields : (fs : List Field) (r : Item) → Agrees r (apply_fields fs r)
unfolding apply_fields apply_field
Agrees-apply_fields [] r = record { same_item = refl; same_rev = refl; same_status = refl }
Agrees-apply_fields (set_group g ∷ fs) r =
    ground (arith, Agrees-apply_fields fs (apply_field (set_group g) r))
Agrees-apply_fields (f ∷ fs) r = ground (arith, Agrees-apply_fields fs (apply_field f r))

module _ (new : Status) (leaving : Bool) (last : Option String) (fields : List Field) (now : ℕ)
    (r : Item) where
  pub item-moved : (moved new leaving last fields now r).item ≡ r.item
  unfolding moved
  item-moved = (Agrees-apply_fields fields _).same_item

  pub rev-moved : (moved new leaving last fields now r).rev ≡ r.rev + 1
  unfolding moved
  rev-moved = (Agrees-apply_fields fields _).same_rev

  pub status-moved : (moved new leaving last fields now r).status ≡ new
  unfolding moved
  status-moved = (Agrees-apply_fields fields _).same_status

pub item-touched : (t : Touch) (r : Item) → (touched t r).item ≡ r.item
unfolding touched
item-touched (Touch.pin s) r = refl
item-touched _ r = refl

pub status-touched : (t : Touch) (r : Item) → (touched t r).status ≡ r.status
unfolding touched
status-touched (Touch.pin s) r = refl
status-touched _ r = refl
