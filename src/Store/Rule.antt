-- ===== src/Store/Rule.antt =====
-- The interface between the operations of the store and an invariant of its database: what the
-- invariant has to allow so that every operation of vp/vpstore.py keeps it.
use voice_pod_dispatcher.Prelude.{
  ℕ, String, ◌≡◌, Bool, true, false, ◌&&◌, Option, none, some, List, ◌∷◌, inl, inr, Bool-cases,
  Option-cases, find_row, update_row, truthy,
}
use voice_pod_dispatcher.Store.Status.{Status, ready}
use voice_pod_dispatcher.Store.Schema.{Item, Attempt, Event, Db, Store, Env}
use voice_pod_dispatcher.Store.Tx.{pure, raise, gets, some_or, raise_if, do_if, ◌>>=◌}
use voice_pod_dispatcher.Store.Log.{
  Edit, attempts, unions, edited, write, insert_row, next_id, require_run, EventArgs, event_seq,
  event, unless_known, new_event,
}
use voice_pod_dispatcher.Store.ItemRows.{
  named, find_item, get_item, fail_union, change_item, Field, moved, may_move, update_item,
  set_item, Touch, touched, touch_item, union_cancel_from, back_to_preparing, off_union_path,
  last_submitted, rev_differs,
}
use voice_pod_dispatcher.Store.Turns.{runs_for, is_attempt, is_live, ended, orphaned}
use voice_pod_dispatcher.Store.Keeps.{Keeps, Keeps-pure, Keeps-gets, Keeps-bind, Keeps-some_or}

-- An edit of a table other than `attempt`.
abbrev pub IsPlain : Edit → Type 0
IsPlain (attempts f) = ⊥
IsPlain _ = Unit

abbrev pub with_items : (List Item → List Item) → Db → Db
with_items f d = record d { items = f d.items }

pub record Rule (Q : Db → Type 0) : Type 0 where
  pub edit : (e : Edit) → IsPlain e → (d : Db) → Q d → Q (edited e d)
  pub log : (e : Event) (d : Db) → Q d → Q (record d { events = e ∷ d.events })
  -- `turn_start`, of an item with no RUNNING attempt
  pub start :
      (a : Attempt) (d : Db)
      → find_row (runs_for a.item) d.attempts ≡ none
      → Q d
      → Q (edited (attempts (insert_row a)) d)
  -- `turn_end`, of an attempt that is RUNNING
  pub end :
      (i status : String) (result detail session : Option String) (now : ℕ) (a : Attempt) (d : Db)
      → find_row (is_attempt i) d.attempts ≡ some a
      → is_live a ≡ true
      → Q d
      → Q (edited (attempts (update_row (is_attempt i) (ended status result detail session now))) d)
  -- `reconcile`
  pub lose :
      (i : String) (now : ℕ) (d : Db)
      → Q d
      → Q (edited (attempts (update_row (λ b. is_attempt i b && is_live b) (orphaned now))) d)
  -- `_set_item`, along the transition table
  pub move :
      (i : String) (new : Status) (leaving : Bool) (last : Option String) (fields : List Field)
      (now : ℕ) (r : Item) (d : Db)
      → find_item i d.items ≡ some r
      → may_move r.status new ≡ true
      → Q d
      → Q (with_items (update_row (named i) (moved new leaving last fields now)) d)
  pub touch :
      (i : String) (t : Touch) (d : Db) → Q d → Q (with_items (update_row (named i) (touched t)) d)
  -- `union_cancel`
  pub cancel :
      (i : String) (candidate : Option String) (now : ℕ) (r : Item) (d : Db)
      → find_item i d.items ≡ some r
      → union_cancel_from r.status ≡ true
      → Q d
      → Q (with_items (update_row (named i) (back_to_preparing candidate now)) d)
  -- `packet_ready`, of an item with no row
  pub insert :
      (r : Item) (d : Db)
      → find_item r.item d.items ≡ none
      → r.status ≡ ready
      → Q d
      → Q (with_items (insert_row r) d)

module _ {Q : Db → Type 0} (rule : Rule Q) where
  pub Keeps-write : (e : Edit) → IsPlain e → Keeps Q (write e)
  unfolding write
  Keeps-write e plain = record { at = λ s h. rule.edit e plain s.db h }

  pub Keeps-next_id : (name : String) → Keeps Q (next_id name)
  unfolding next_id
  Keeps-next_id name =
      Keeps-bind _ _ (Keeps-write _ tt) (λ _. Keeps-bind _ _ (Keeps-gets _) (λ n. Keeps-pure _))

  pub Keeps-require_run : Keeps Q require_run
  unfolding require_run
  Keeps-require_run = Keeps-bind _ _ (Keeps-gets _) (λ o. Keeps-some_or _ o)

  pub Keeps-get_item : (i : String) → Keeps Q (get_item i)
  unfolding get_item
  Keeps-get_item i = Keeps-bind _ _ (Keeps-gets _) (λ o. Keeps-some_or _ o)

  pub Keeps-touch_item : (i : String) (t : Touch) → Keeps Q (touch_item i t)
  unfolding touch_item update_item
  Keeps-touch_item i t = record { at = λ s h. rule.touch i t s.db h }

  Keeps-unless_known :
      (env : Env) (kind : String) (a : EventArgs) (known : Option Event)
      → Keeps Q (unless_known env kind a known)
  unfolding unless_known
  Keeps-unless_known env kind a none = record {
    at = λ s h. rule.log (new_event env kind a s.db) s.db h;
  }
  Keeps-unless_known env kind a (some e) = Keeps-pure _

  pub Keeps-event_seq : (env : Env) (kind : String) (a : EventArgs) → Keeps Q (event_seq env kind a)
  unfolding event_seq
  Keeps-event_seq env kind a =
      Keeps-bind _ _ (Keeps-gets _) (λ known. Keeps-unless_known env kind a known)

  pub Keeps-event : (env : Env) (kind : String) (a : EventArgs) → Keeps Q (event env kind a)
  unfolding event
  Keeps-event env kind a = Keeps-bind _ _ (Keeps-event_seq env kind a) (λ _. Keeps-pure _)

  Keeps-change_item :
      (env : Env) (i : String) (new : Status) (fields : List Field) (r : Item) (s : Store)
      → find_item i s.db.items ≡ some r
      → may_move r.status new ≡ true
      → Q s.db
      → Q (change_item env i new fields r s).1.db
  unfolding change_item edited fail_union ◌>>=◌ gets do_if pure write update_item
  Keeps-change_item env i new fields r s found legal h =
      elim (Bool-cases (off_union_path new && truthy r.union_id)) [
        | inl e ↦ rw e (
            let lost : Edit = unions (fail_union i new r.union_id) in
            rule.move i new true (last_submitted i s.db.events) fields env.now r (edited lost s.db)
              found legal (rule.edit lost tt s.db h))
        | inr e ↦ rw e (
            rule.move i new false (last_submitted i s.db.events) fields env.now r s.db found legal
              h)
      ]

  pub Keeps-set_item :
      (env : Env) (i : String) (new : Status) (expected : Option ℕ) (fields : List Field)
      → Keeps Q (set_item env i new expected fields)
  unfolding set_item get_item ◌>>=◌ gets some_or raise_if raise pure
  Keeps-set_item env i new expected fields = record {
    at = λ s h. elim (Option-cases (find_item i s.db.items)) [
      | inl e ↦ rw e h
      | inr (r, e) ↦ rw e (elim (Bool-cases (rev_differs expected r.rev)) [
        | inl stale ↦ rw stale h
        | inr fresh ↦ rw fresh (elim (Bool-cases (may_move r.status new)) [
          | inl legal ↦ rw legal (Keeps-change_item env i new fields r s e legal h)
          | inr illegal ↦ rw illegal h
        ])
      ])
    ];
  }
