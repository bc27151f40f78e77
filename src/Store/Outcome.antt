-- ===== src/Store/Outcome.antt =====
-- How an action that succeeds ends: equations `m s ≡ (ok a, s')`, chained along a `do` block
-- (vp/vpstore.py).
use voice_pod_dispatcher.Prelude.{
  ℕ, ◌+◌, String, eq_refl, ◌≡◌, refl, ap, ◌∙◌, Bool, true, false, ◌&&◌, Option, none, some, List,
  [], ◌∷◌, arith, inl, inr, Bool-cases, truthy, update_row,
}
use voice_pod_dispatcher.Store.Status.{Status}
use voice_pod_dispatcher.Store.Schema.{Event, Item, Line, Store, Env}
use voice_pod_dispatcher.Store.Tx.{
  Action, Error, refused, ok, err, pure, raise, gets, some_or, raise_if, do_if, append_lines,
  oldest_first, finish, tx, ◌>>=◌,
}
use voice_pod_dispatcher.Store.Log.{
  EventArgs, idem_key, find_idem, write, edited, event, event_seq, unless_known,
}
use voice_pod_dispatcher.Store.ItemRows.{
  named, find_item, get_item, Field, moved, may_move, rev_differs, off_union_path, last_submitted,
  change_item, set_item, update_item,
}
use voice_pod_dispatcher.Store.Lookup.{find_item-update_row, item-moved, status-moved, rev-moved}

pub bind-ok :
    {A B : Type 0} (m : Action A) (f : A → Action B) (s : Store) {a : A} {s' : Store}
    → m s ≡ (ok a, s')
    → (m >>= f) s ≡ f a s'
unfolding ◌>>=◌
bind-ok m f s e = rw e

pub get_item-ok :
    (i : String) (s : Store) (r : Item) → find_item i s.db.items ≡ some r → get_item i s ≡ (ok r, s)
unfolding get_item gets some_or pure ◌>>=◌
get_item-ok i s r e = rw e

pub raise_if-ok : (b : Bool) (e : Error) (s : Store) → b ≡ false → raise_if b e s ≡ (ok tt, s)
unfolding raise_if pure
raise_if-ok b e s h = rw h

-- Every append of every transaction succeeds.
abbrev pub AppendsWork : Env → Type 0
AppendsWork env = (n : ℕ) → env.append_ok n ≡ true

append_lines-ok :
    (works : ℕ → Bool) (n : ℕ) (ls disk : List Line)
    → ((k : ℕ) → works k ≡ true)
    → (append_lines works n ls disk).0 ≡ true
unfolding append_lines
append_lines-ok works n [] disk h = refl
append_lines-ok works n (l ∷ ls) disk h =
    ground (arith, h n, append_lines-ok works (n + 1) ls (l ∷ disk) h)

-- The lines in the files after a transaction that left `pending`.
pub flushed : Env → Store → List Line
flushed env s = (append_lines env.append_ok 0 (oldest_first s.pending []) s.disk).1

pub tx-ok :
    {A : Type 0} (env : Env) (m : Action A) (s : Store) {a : A} {s' : Store}
    → AppendsWork env
    → m (record s { pending = [] }) ≡ (ok a, s')
    → tx env m s ≡ (ok a, record s' { pending = []; disk = flushed env s' })
unfolding tx finish flushed
tx-ok env m s {s' = s₁} works e =
    rw e (rw (append_lines-ok env.append_ok 0 (oldest_first s₁.pending []) s₁.disk works))

unless_known-ok :
    (env : Env) (kind : String) (a : EventArgs) (known : Option Event) (s : Store)
    → (p : ℕ × Bool) × ((unless_known env kind a known s).0 ≡ ok p)
      × ((unless_known env kind a known s).1.db.items ≡ s.db.items)
unfolding unless_known pure
unless_known-ok env kind a none s = (_, refl, refl)
unless_known-ok env kind a (some e) s = (_, refl, refl)

-- An event never fails, and leaves the items alone.
module _ (env : Env) (kind : String) (a : EventArgs) (s : Store) where
  event_both : ((event env kind a s).0 ≡ ok tt) × ((event env kind a s).1.db.items ≡ s.db.items)
  unfolding event event_seq gets pure ◌>>=◌
  event_both =
      let (p, fine, same) =
        unless_known-ok env kind a (find_idem (idem_key kind a) s.db.events) s in
      (rw fine refl, rw fine same)

  pub event-ok : event env kind a s ≡ (ok tt, (event env kind a s).1)
  event-ok = ground (arith, event_both.0)

  pub items-event : (event env kind a s).1.db.items ≡ s.db.items
  items-event = event_both.1

module _ (env : Env) (i : String) (new : Status) (fields : List Field) (r : Item) (s : Store) where
  -- The row that `_set_item` makes of `r`.
  unfoldable pub changed_row : Item
  changed_row =
      moved new (off_union_path new && truthy r.union_id) (last_submitted i s.db.events) fields
        env.now r

  change_item_both :
      ((change_item env i new fields r s).0 ≡ ok r.status)
      × ((change_item env i new fields r s).1.db.items
          ≡ update_row
              (named i)
              (moved new
                (off_union_path new && truthy r.union_id)
                (last_submitted i s.db.events)
                fields
                env.now)
              s.db.items)
  unfolding change_item edited gets do_if pure write update_item ◌>>=◌
  change_item_both = elim (Bool-cases (off_union_path new && truthy r.union_id)) [
    | inl e ↦ rw e (refl, refl)
    | inr e ↦ rw e (refl, refl)
  ]

  pub set_item-ok :
      (expected : Option ℕ)
      → find_item i s.db.items ≡ some r
      → rev_differs expected r.rev ≡ false
      → may_move r.status new ≡ true
      → set_item env i new expected fields s ≡ (ok r.status, (change_item env i new fields r s).1)
  unfolding set_item get_item gets some_or raise_if pure ◌>>=◌
  set_item-ok expected found fresh legal =
      rw found (rw fresh (rw legal (ground (arith, change_item_both.0))))

  pub find_item-change_item :
      find_item i s.db.items ≡ some r
      → find_item i (change_item env i new fields r s).1.db.items ≡ some changed_row
  unfolding changed_row
  find_item-change_item found =
      let leaving : Bool = off_union_path new && truthy r.union_id in
      let last : Option String = last_submitted i s.db.events in
      rw change_item_both.1 (
        rw
          (find_item-update_row i i (moved new leaving last fields env.now) s.db.items
            (item-moved new leaving last fields env.now))
          (rw (eq_refl i) (rw found)))

  pub status-changed_row : changed_row.status ≡ new
  unfolding changed_row
  status-changed_row = status-moved new _ _ fields env.now r

  pub rev-changed_row : changed_row.rev ≡ r.rev + 1
  unfolding changed_row
  rev-changed_row = rev-moved new _ _ fields env.now r

pub bind-err :
    {A B : Type 0} (m : Action A) (f : A → Action B) (s : Store) {e : Error} {s' : Store}
    → m s ≡ (err e, s')
    → (m >>= f) s ≡ (err e, s')
unfolding ◌>>=◌
bind-err m f s h = rw h

-- An illegal transition raises before anything is written.
pub set_item-illegal :
    (env : Env) (i : String) (new : Status) (fields : List Field) (r : Item) (s : Store)
    → find_item i s.db.items ≡ some r
    → may_move r.status new ≡ false
    → set_item env i new none fields s ≡ (err refused, s)
unfolding set_item get_item gets some_or raise_if raise pure ◌>>=◌
set_item-illegal env i new fields r s found illegal = rw found (rw illegal)

-- What a transaction that raises leaves.
pub tx-err :
    {A : Type 0} (env : Env) (m : Action A) (s : Store) {e : Error} {s' : Store}
    → m (record s { pending = [] }) ≡ (err e, s')
    → ((tx env m s).0 ≡ err e) × ((tx env m s).1.db ≡ s.db)
unfolding tx finish
tx-err env m s h = (rw h, rw h)

pub bind-raises :
    {A B : Type 0} (m : Action A) (f : A → Action B) (s : Store) {e : Error}
    → (m s).0 ≡ err e
    → (m >>= f) s ≡ (err e, (m s).1)
unfolding ◌>>=◌
bind-raises m f s h = rw h

-- A verb that goes on after its transaction raises what the transaction raises.
pub tx-raises :
    {A B : Type 0} (env : Env) (body : Action A) (f : A → Action B) (s : Store) {e : Error}
    → ((tx env body s).0 ≡ err e) × ((tx env body s).1.db ≡ s.db)
    → (((tx env body >>= f) s).0 ≡ err e) × (((tx env body >>= f) s).1.db ≡ s.db)
tx-raises env body f s (raised, kept) =
    let stops = bind-raises (tx env body) f s raised in
    (ap (λ p. p.0) stops, ap (λ p. p.1.db) stops ∙ kept)
