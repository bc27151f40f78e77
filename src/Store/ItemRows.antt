-- ===== src/Store/ItemRows.antt =====
-- vp/vpstore.py: `get_item` and `_set_item`, and the other statements that write the table `item`.
use voice_pod_dispatcher.Prelude.{
  ℕ, ◌+◌, String, str_eq, Bool, true, false, not, ◌&&◌, ◌||◌, List, [], ◌∷◌, Option, none, some,
  if◌then◌else◌, ◌==◌, find_row, update_row, truthy, same_text, is_among, concat,
}
use voice_pod_dispatcher.Store.Status.{
  Status, ready, building, grading, blocked, preparing, prepared, proof_pending, final_review,
  approved, same_status, status_in, item_transitions, status_text,
}
use voice_pod_dispatcher.Store.Schema.{Item, Event, Union, Env}
use voice_pod_dispatcher.Store.Tx.{
  Action, ok, pure, gets, some_or, raise_if, do_if, refused, conflict, ◌>>=◌, ◌>>◌,
}
use voice_pod_dispatcher.Store.Log.{write, unions, insert_row}

abbrev pub named : String → Item → Bool
named i r = str_eq r.item i

unfoldable pub find_item : String → List Item → Option Item
find_item i rows = find_row (named i) rows

unfoldable pub get_item : String → Action Item
get_item i = do found ← gets (λ d. find_item i d.items); some_or refused found

-- The keyword arguments that callers give to `_set_item`.
pub data Field : Type 0 where
  set_group : Option ℕ → Field
  set_builder set_worktree set_note set_candidate : Option String → Field
  set_paused_from : Option Status → Field
  set_round : ℕ → Field

unfoldable pub apply_field : Field → Item → Item
apply_field (set_group g) r = record r { group_no = g }
apply_field (set_builder b) r = record r { builder_role = b }
apply_field (set_worktree w) r = record r { worktree = w }
apply_field (set_note n) r = record r { note = n }
apply_field (set_candidate c) r = record r { candidate_sha = c }
apply_field (set_paused_from s) r = record r { paused_from = s }
apply_field (set_round n) r = record r { round = n }

unfoldable pub apply_fields : List Field → Item → Item
apply_fields [] r = r
apply_fields (f ∷ fs) r = apply_fields fs (apply_field f r)

abbrev gives_candidate : Field → Bool
gives_candidate (set_candidate _) = true
gives_candidate _ = false

abbrev pub has_candidate : List Field → Bool
has_candidate [] = false
has_candidate (f ∷ fs) = gives_candidate f || has_candidate fs

-- SELECT ref FROM event WHERE item=? AND kind='SUBMIT_RESULT' ORDER BY rowid DESC LIMIT 1
ref_of : Option Event → Option String
ref_of none = none
ref_of (some e) = e.ref

unfoldable pub last_submitted : String → List Event → Option String
unfolding ref_of
last_submitted i events =
    ref_of (find_row (λ e. same_text e.item (some i) && str_eq e.kind "SUBMIT_RESULT") events)

-- `if last and last["ref"]`
unfoldable pub restored : Option String → Option String → Option String
restored last old = if truthy last then last else old

text_of : Option String → String
text_of none = ""
text_of (some s) = s

unfoldable pub append_note : Option String → List String → Option String
unfolding text_of
append_note note more = some (concat (text_of note ∷ more))

unfoldable pub fail_union : String → Status → Option String → List Union → List Union
unfolding append_note
fail_union i new uid =
    update_row
      (λ u.
        same_text (some u.union_id) uid && not (is_among u.status ("APPROVED" ∷ "PROMOTED" ∷ [])))
      λ u. record u {
        status = "FAILED";
        note = append_note u.note (" item " ∷ i ∷ " -> " ∷ status_text new ∷ ";" ∷ []);
      }

-- Leaving the union path drops the union membership.
abbrev pub off_union_path : Status → Bool
off_union_path s = status_in s (grading ∷ building ∷ blocked ∷ ready ∷ [])

abbrev pub may_move : Status → Status → Bool
may_move old new = same_status new old || status_in new (item_transitions old)

-- The columns that `_set_item` sets, the keyword arguments last.
unfoldable pub moved : Status → Bool → Option String → List Field → ℕ → Item → Item
unfolding apply_fields apply_field restored
moved new leaving last fields now r = apply_fields fields (record r {
  rev = r.rev + 1;
  ts = now;
  status = new;
  union_id = if leaving then none else r.union_id;
  candidate_sha =
      if leaving && not (has_candidate fields)
      then restored last r.candidate_sha
      else r.candidate_sha;
})

unfoldable pub update_item : String → (Item → Item) → Action (Unit {0})
update_item i f s =
    (ok tt, record s { db = record s.db { items = update_row (named i) f s.db.items } })

abbrev pub rev_differs : Option ℕ → ℕ → Bool
rev_differs none n = false
rev_differs (some m) n = not (m == n)

-- The statements of `_set_item`, once its checks have passed.
unfoldable pub change_item : Env → String → Status → List Field → Item → Action Status
unfolding fail_union
change_item env i new fields row = do
  last ← gets (λ d. last_submitted i d.events)
  let leaving = off_union_path new && truthy row.union_id
  do_if leaving (write (unions (fail_union i new row.union_id)))
  update_item i (moved new leaving last fields env.now)
  pure row.status

-- _set_item. Every caller gives a new status.
unfoldable pub set_item : Env → String → Status → Option ℕ → List Field → Action Status
set_item env i new expected fields = do
  row ← get_item i
  raise_if (rev_differs expected row.rev) conflict
  raise_if (not (may_move row.status new)) refused
  change_item env i new fields row

-- The statements that write an item row outside `_set_item` and leave its status alone.
pub data Touch : Type 0 where
  pin : String → Touch
  plan_by final_by : String → Touch
  rebase : (base : String) (now : ℕ) → Touch
  join_union : (union_sha uid : String) (now : ℕ) → Touch

unfoldable pub touched : Touch → Item → Item
touched (pin server) r = record r { pinned_server = some server }
touched (plan_by role) r = record r { senior_plan = some role }
touched (final_by role) r = record r { senior_final = some role }
touched (rebase base now) r = record r { base_sha = some base; rev = r.rev + 1; ts = now }
touched (join_union sha uid now) r = record r {
  candidate_sha = some sha;
  union_id = some uid;
  rev = r.rev + 1;
  ts = now;
}

unfoldable pub touch_item : String → Touch → Action (Unit {0})
unfolding touched update_item
touch_item i t = update_item i (touched t)

-- UNION_CANCEL_FROM
abbrev pub union_cancel_from : Status → Bool
union_cancel_from s = status_in s (prepared ∷ proof_pending ∷ final_review ∷ approved ∷ [])

unfoldable pub back_to_preparing : Option String → ℕ → Item → Item
back_to_preparing candidate now r = record r {
  status = preparing;
  union_id = none;
  candidate_sha = candidate;
  rev = r.rev + 1;
  ts = now;
}

-- INSERT INTO item, where the item has no row.
unfoldable pub insert_item : Item → Action (Unit {0})
insert_item r s = (ok tt, record s { db = record s.db { items = insert_row r s.db.items } })
