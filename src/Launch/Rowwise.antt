-- ===== src/Launch/Rowwise.antt =====
-- What a command does to the list of tasks, row by row (ci/control/orchestration_control.py).
use voice_pod_dispatcher.Prelude.{
  String, ◌≡◌, refl, sym, ◌∙◌, subst, Bool, true, some, List, [], ◌∷◌, ◌++◌, arith, inl, inr,
  Bool-cases, find_row, update_row,
}
use mathlib.Core.List.{append-nil, append_assoc}
use voice_pod_dispatcher.Launch.Check.{ok}
use voice_pod_dispatcher.Launch.Schema.{state_in, unstarted, Wait, Task, Candidate, Catalog}
use voice_pod_dispatcher.Launch.World.{World}
use voice_pod_dispatcher.Launch.ReviewGate.{is_task}
use voice_pod_dispatcher.Launch.Readiness.{
  new_state, dependency_status, task_contract, refresh, refresh_rows,
}
use voice_pod_dispatcher.Launch.Ensures.{Ensures, Ensures-ok, Ensures-if, after_value}
use voice_pod_dispatcher.Launch.Life.{Change, Sound, may_follow}
use voice_pod_dispatcher.Launch.Changes.{Change-quiet}

-- Each row of the first list has its row in the second.
abbrev pub RowsBy : (P : Task → Task → Type 0) → List Task → List Task → Type 0
RowsBy P [] [] = Unit
RowsBy P (r ∷ rs) (r' ∷ rs') = P r r' × RowsBy P rs rs'
RowsBy P _ _ = ⊥

abbrev pub Moves : List Task → List Task → Type 0
Moves = RowsBy Change

pub Change-refl : (r : Task) → Change r r
Change-refl r = Change-quiet r r refl refl refl

pub Moves-refl : (rs : List Task) → Moves rs rs
Moves-refl [] = tt
Moves-refl (r ∷ rs) = (Change-refl r, Moves-refl rs)

Change-readied :
    (r : Task) (waiting : List Wait) (now : _)
    → state_in r.state unstarted ≡ true
    → Change r (record r { state = new_state waiting; waiting_for = waiting; updated_at = now })
unfolding may_follow
Change-readied r waiting now e = record {
  same_id = refl;
  legal = ground arith;
  sound = λ s u. absurd (ground (arith, s u));
}

pub Change-refresh :
    (w : World) (cat : Catalog) (k : Candidate) (tasks : List Task) (r : Task)
    → Ensures (Change r) (refresh w cat k tasks r)
unfolding refresh
Change-refresh w cat k tasks r =
    Ensures-if (state_in r.state unstarted) _ _
      (λ e.
        after_value (dependency_status w.files k tasks (task_contract cat r)) _
          (λ waiting _. Ensures-ok _ (Change-readied r waiting w.now e)))
      (λ _. Ensures-ok r (Change-refl r))

module _ (P : Task → Task → Type 0) (w : World) (cat : Catalog) (k : Candidate)
    (one : (tasks : List Task) (r : Task) → Ensures (P r) (refresh w cat k tasks r)) where
  -- The rows that are left of the loop, each with its row in the result.
  abbrev Refreshed : (before rows result : List Task) → Type 0
  Refreshed before rows result = (rest : List Task) × (result ≡ before ++ rest) × RowsBy P rows rest

  RowsBy-refresh_rows :
      (before rows : List Task) → Ensures (Refreshed before rows) (refresh_rows w cat k before rows)
  unfolding refresh_rows
  RowsBy-refresh_rows before [] = Ensures-ok before ([], sym (append-nil before), tt)
  RowsBy-refresh_rows before (r ∷ rows) =
      after_value (refresh w cat k (before ++ r ∷ rows) r) _ (λ r' e. record {
        at = λ result found.
            let (rest, same, moves) =
              (RowsBy-refresh_rows (before ++ r' ∷ []) rows).at result found in
            (
              r' ∷ rest,
              same ∙ append_assoc before (r' ∷ []) rest,
              ((one (before ++ r ∷ rows) r).at r' e, moves),
            );
      })

  pub RowsBy-refreshed :
      (tasks rows : List Task) → refresh_rows w cat k [] tasks ≡ ok rows → RowsBy P tasks rows
  RowsBy-refreshed tasks rows e =
      let (rest, same, moves) = (RowsBy-refresh_rows [] tasks).at rows e in
      subst (RowsBy P tasks) (sym same) moves

pub Moves-refreshed :
    (w : World) (cat : Catalog) (k : Candidate) (tasks rows : List Task)
    → refresh_rows w cat k [] tasks ≡ ok rows
    → Moves tasks rows
Moves-refreshed w cat k = RowsBy-refreshed Change w cat k (Change-refresh w cat k)

pub Moves-update_row :
    (i : String) (f : Task → Task) (r : Task) (rs : List Task)
    → find_row (is_task i) rs ≡ some r
    → Change r (f r)
    → Moves rs (update_row (is_task i) f rs)
unfolding find_row update_row
Moves-update_row i f r [] e change = tt
Moves-update_row i f r (x ∷ xs) e change = elim (Bool-cases (is_task i x)) [
  | inl h ↦ rw h (subst (λ y. Change y (f y)) (sym (same_row (rw h at e))) change, Moves-refl xs)
  | inr h ↦ rw h (Change-refl x, Moves-update_row i f r xs (rw h at e) change)
]
  where
    same_row : {x r : Task} → some x ≡ some r → x ≡ r
    same_row e = cc

-- A row that is there is there after a change of every row, under the same id.
module _ (P : Task → Task → Type 0)
    (same_id : (r r' : Task) → P r r' → r'.task_id ≡ r.task_id) where
  pub find_row-RowsBy :
      (i : String) (rs rs' : List Task) (r : Task)
      → RowsBy P rs rs'
      → find_row (is_task i) rs ≡ some r
      → (r' : Task) × (find_row (is_task i) rs' ≡ some r') × P r r'
  unfolding find_row
  find_row-RowsBy i [] rs' r moves e = absurd (ground arith)
  find_row-RowsBy i (x ∷ xs) [] r moves e = elim moves [ ]
  find_row-RowsBy i (x ∷ xs) (y ∷ ys) r (change, moves) e = elim (Bool-cases (is_task i x)) [
    | inl h ↦
        (y, rw (same_id x y change) (rw h refl), subst (λ z. P z y) (same_row (rw h at e)) change)
    | inr h ↦ rw (same_id x y change) (rw h (find_row-RowsBy i xs ys r moves (rw h at e)))
  ]
    where
      same_row : {x r : Task} → some x ≡ some r → x ≡ r
      same_row e = cc

pub find_row-Moves :
    (i : String) (rs rs' : List Task) (r : Task)
    → Moves rs rs'
    → find_row (is_task i) rs ≡ some r
    → (r' : Task) × (find_row (is_task i) rs' ≡ some r') × Change r r'
find_row-Moves = find_row-RowsBy Change (λ r r' change. change.same_id)

abbrev pub AllSound : List Task → Type 0
AllSound [] = Unit
AllSound (r ∷ rs) = Sound r × AllSound rs

pub AllSound-Moves : (rs rs' : List Task) → Moves rs rs' → AllSound rs → AllSound rs'
AllSound-Moves [] [] moves h = tt
AllSound-Moves [] (y ∷ ys) moves h = elim moves [ ]
AllSound-Moves (x ∷ xs) [] moves h = elim moves [ ]
AllSound-Moves (x ∷ xs) (y ∷ ys) (change, moves) (hx, h) =
    (change.sound hx, AllSound-Moves xs ys moves h)

pub AllSound-append : (rs : List Task) (r : Task) → AllSound rs → Sound r → AllSound (rs ++ r ∷ [])
AllSound-append [] r h hr = (hr, tt)
AllSound-append (x ∷ xs) r (hx, h) hr = (hx, AllSound-append xs r h hr)

pub find_row-append :
    {A : Type 0} (p : A → Bool) (rs : List A) (x r : A)
    → find_row p rs ≡ some r
    → find_row p (rs ++ x ∷ []) ≡ some r
unfolding find_row
find_row-append p [] x r e = absurd (ground arith)
find_row-append p (y ∷ ys) x r e = elim (Bool-cases (p y)) [
  | inl h ↦ rw h (rw h at e)
  | inr h ↦ rw h (find_row-append p ys x r (rw h at e))
]
