-- ===== src/Launch/Refreshing.antt =====
-- The loop of `recompute_readiness`, which writes into the rows that it reads, beside a pass over all
-- rows at once (ci/control/orchestration_control.py).
use voice_pod_dispatcher.Prelude.{
  String, str_eq, ◌≡◌, refl, sym, ◌∙◌, ap, true, false, Option, none, some, List, [], ◌∷◌, ◌++◌,
  map, if◌then◌else◌, arith, inl, inr, Bool-cases, find_row,
}
use mathlib.Core.List.{append-nil, append_assoc, map-append}
use voice_pod_dispatcher.Launch.Check.{Check, ok, err, ◌>>=◌, at_key, each}
use voice_pod_dispatcher.Launch.Schema.{
  TaskState, planned, integrated, same_state, state_in, unstarted, Wait, Task, Candidate, Contract,
  Catalog,
}
use voice_pod_dispatcher.Launch.World.{Files, World}
use voice_pod_dispatcher.Launch.ReviewGate.{is_task}
use voice_pod_dispatcher.Launch.Readiness.{
  unmet, owes_review, unreviewed, dependency_status, new_state, task_contract, refresh,
  refresh_rows,
}
use voice_pod_dispatcher.Launch.Ensures.{Ensures, Ensures-ok, Ensures-if, after_value}

-- A row without what the loop writes.
unfoldable pub blank : Task → Task
blank r =
    if state_in r.state unstarted
    then record r { state = planned; waiting_for = []; updated_at = 0 }
    else r

task_id-blank : (r : Task) → (blank r).task_id ≡ r.task_id
unfolding blank
task_id-blank r = elim (Bool-cases (state_in r.state unstarted)) [
  | inl e ↦ rw e refl
  | inr e ↦ rw e refl
]

unlocks-blank : (r : Task) → (blank r).unlocks_dependents ≡ r.unlocks_dependents
unfolding blank
unlocks-blank r = elim (Bool-cases (state_in r.state unstarted)) [
  | inl e ↦ rw e refl
  | inr e ↦ rw e refl
]

owes_review-unstarted :
    (files : Files) (k : Candidate) (r : Task)
    → state_in r.state unstarted ≡ true
    → owes_review files k r ≡ false
unfolding owes_review
owes_review-unstarted files k r e = rw (not_integrated r.state e) refl
  where
    not_integrated : (s : TaskState) → state_in s unstarted ≡ true → same_state s integrated ≡ false
    not_integrated s e = ground arith

owes_review-blank :
    (files : Files) (k : Candidate) (r : Task)
    → owes_review files k (blank r) ≡ owes_review files k r
unfolding blank
owes_review-blank files k r = elim (Bool-cases (state_in r.state unstarted)) [
  | inl e ↦ rw e (owes_review-unstarted files k _ refl ∙ sym (owes_review-unstarted files k r e))
  | inr e ↦ rw e refl
]

abbrev image : Option Task → Option Task
image none = none
image (some r) = some (blank r)

is_task-blank : (i : String) (r : Task) → is_task i (blank r) ≡ is_task i r
is_task-blank i r = ap (λ s. str_eq s i) (task_id-blank r)

find_row-blank :
    (i : String) (rs : List Task)
    → find_row (is_task i) (map blank rs) ≡ image (find_row (is_task i) rs)
unfolding find_row
find_row-blank i [] = refl
find_row-blank i (r ∷ rs) = elim (Bool-cases (is_task i r)) [
  | inl e ↦ rw (is_task-blank i r ∙ e, e)
  | inr e ↦ rw (is_task-blank i r ∙ e, e) (find_row-blank i rs)
]

unmet_step : Option Task → String → Check (List Wait) → Check (List Wait)
unmet_step o d m = do
  predecessor ← at_key o
  rest ← m
  ok (if predecessor.unlocks_dependents then rest else Wait.on_task d ∷ rest)

unmet_step-blank :
    (o : Option Task) (d : String) (m : Check (List Wait))
    → unmet_step (image o) d m ≡ unmet_step o d m
unfolding unmet_step at_key
unmet_step-blank none d m = refl
unmet_step-blank (some r) d m = rw (unlocks-blank r) refl

unmet-blank : (rs : List Task) (ds : List String) → unmet (map blank rs) ds ≡ unmet rs ds
unfolding unmet unmet_step
unmet-blank rs [] = refl
unmet-blank rs (d ∷ ds) =
    ap (λ o. unmet_step o d (unmet (map blank rs) ds)) (find_row-blank d rs)
    ∙ unmet_step-blank (find_row (is_task d) rs) d (unmet (map blank rs) ds)
    ∙ ap (unmet_step (find_row (is_task d) rs) d) (unmet-blank rs ds)

unreviewed-blank :
    (files : Files) (k : Candidate) (rs : List Task)
    → unreviewed files k (map blank rs) ≡ unreviewed files k rs
unfolding unreviewed
unreviewed-blank files k [] = refl
unreviewed-blank files k (r ∷ rs) =
    rw (owes_review-blank, task_id-blank, unreviewed-blank files k rs)

seen_blank :
    (files : Files) (k : Candidate) (rs : List Task) (contract : Contract)
    → dependency_status files k (map blank rs) contract ≡ dependency_status files k rs contract
unfolding dependency_status
seen_blank files k rs contract =
    rw (unmet-blank rs contract.depends_on, unreviewed-blank files k rs)

pub dependency_status-blank :
    (files : Files) (k : Candidate) (rs rs' : List Task) (contract : Contract)
    → map blank rs ≡ map blank rs'
    → dependency_status files k rs contract ≡ dependency_status files k rs' contract
dependency_status-blank files k rs rs' contract e =
    sym (seen_blank files k rs contract)
    ∙ ap (λ xs. dependency_status files k xs contract) e
    ∙ seen_blank files k rs' contract

refresh-blank :
    (w : World) (cat : Catalog) (k : Candidate) (rs rs' : List Task) (r : Task)
    → map blank rs ≡ map blank rs'
    → refresh w cat k rs r ≡ refresh w cat k rs' r
unfolding refresh
refresh-blank w cat k rs rs' r e =
    rw (dependency_status-blank w.files k rs rs' (task_contract cat r) e)

blank-readied :
    (r : Task) (waiting : List Wait) (now : _)
    → state_in r.state unstarted ≡ true
    → blank (record r { state = new_state waiting; waiting_for = waiting; updated_at = now })
      ≡ blank r
unfolding blank
blank-readied r [] now e = rw e refl
blank-readied r (x ∷ xs) now e = rw e refl

pub blank-refresh :
    (w : World) (cat : Catalog) (k : Candidate) (rs : List Task) (r : Task)
    → Ensures (λ r'. blank r' ≡ blank r) (refresh w cat k rs r)
unfolding refresh
blank-refresh w cat k rs r =
    Ensures-if (state_in r.state unstarted) _ _
      (λ e.
        after_value (dependency_status w.files k rs (task_contract cat r)) _
          (λ waiting _. Ensures-ok _ (blank-readied r waiting w.now e)))
      (λ _. Ensures-ok r refl)

-- The rows with one of them replaced by its refreshed row look the same to the loop.
map-blank_replaced :
    (before : List Task) (r r' : Task) (rows : List Task)
    → blank r' ≡ blank r
    → map blank ((before ++ r' ∷ []) ++ rows) ≡ map blank (before ++ r ∷ rows)
map-blank_replaced before r r' rows e =
    ap (map blank) (append_assoc before (r' ∷ []) rows)
    ∙ map-append blank before (r' ∷ rows)
    ∙ ap (λ x. map blank before ++ x ∷ map blank rows) e
    ∙ sym (map-append blank before (r ∷ rows))

bind-cong :
    {A B : Type 0} (m : Check A) (f g : A → Check B)
    → ((a : A) → m ≡ ok a → f a ≡ g a)
    → (m >>= f) ≡ (m >>= g)
bind-cong (ok a) f g h = h a refl
bind-cong (err e) f g h = refl

-- The rest of the rows, refreshed on the rows `all`, after those that are done.
at_once : World → Catalog → Candidate → (all before rows : List Task) → Check (List Task)
at_once w cat k all before rows = do rest ← each (refresh w cat k all) rows; ok (before ++ rest)

bind_assoc :
    {A B C : Type 0} (m : Check A) (f : A → Check B) (g : B → Check C)
    → ((m >>= f) >>= g) ≡ (m >>= λ a. f a >>= g)
bind_assoc (ok a) f g = refl
bind_assoc (err e) f g = refl

regroup :
    (before : List Task) (r' : Task) (m : Check (List Task))
    → (m >>= λ rest. ok ((before ++ r' ∷ []) ++ rest))
      ≡ ((m >>= λ ys. ok (r' ∷ ys)) >>= λ rest. ok (before ++ rest))
regroup before r' (ok ys) = ap ok (append_assoc before (r' ∷ []) ys)
regroup before r' (err e) = refl

refresh_rows-at_once :
    (w : World) (cat : Catalog) (k : Candidate) (all before rows : List Task)
    → map blank (before ++ rows) ≡ map blank all
    → refresh_rows w cat k before rows ≡ at_once w cat k all before rows
unfolding refresh_rows at_once each
refresh_rows-at_once w cat k all before [] e = ap ok (sym (append-nil before))
refresh_rows-at_once w cat k all before (r ∷ rows) e =
    rw (refresh-blank w cat k (before ++ r ∷ rows) all r e) (
      bind-cong (refresh w cat k all r) _ _ (λ r' found.
        refresh_rows-at_once w cat k all (before ++ r' ∷ []) rows
          (map-blank_replaced before r r' rows ((blank-refresh w cat k all r).at r' found) ∙ e)
        ∙ regroup before r' (each (refresh w cat k all) rows))
      ∙ sym (bind_assoc (refresh w cat k all r) _ (λ rest. ok (before ++ rest))))

-- The loop of `recompute_readiness`, which writes each row before it reads the next, gives what it
-- gives where every row is refreshed on the rows as they were at first, errors included.
pub refresh_rows-each :
    (w : World) (cat : Catalog) (k : Candidate) (tasks : List Task)
    → refresh_rows w cat k [] tasks ≡ each (refresh w cat k tasks) tasks
unfolding at_once
refresh_rows-each w cat k tasks =
    refresh_rows-at_once w cat k tasks [] tasks refl ∙ unit (each (refresh w cat k tasks) tasks)
  where
    unit : (m : Check (List Task)) → (m >>= λ rest. ok rest) ≡ m
    unit (ok rs) = refl
    unit (err e) = refl
