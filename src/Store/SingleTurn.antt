-- ===== src/Store/SingleTurn.antt =====
-- One turn at a time: no item has two RUNNING attempts (vp/vpstore.py, `turn_start`, `turn_end`,
-- `reconcile`).
use voice_pod_dispatcher.Prelude.{
  ℕ, suc, ◌≤◌, String, eq_iff, ◌≡◌, refl, true, ◌&&◌, Option, none, some, List, [], ◌∷◌,
  if◌then◌else◌, arith, find_row, update_row,
}
use voice_pod_dispatcher.Store.Schema.{Attempt, Db, Store, Env}
use voice_pod_dispatcher.Store.Log.{Edit, attempts, edited, insert_row}
use voice_pod_dispatcher.Store.Turns.{runs_for, is_attempt, is_live, ended, orphaned}
use voice_pod_dispatcher.Store.Rule.{Rule, IsPlain}
use voice_pod_dispatcher.Store.Commands.{Command, history}
use voice_pod_dispatcher.Store.Preserve.{history-keeps}

-- The number of RUNNING attempts of an item.
unfoldable pub running_turns : String → List Attempt → ℕ
running_turns i [] = 0
running_turns i (a ∷ rest) = let n = running_turns i rest in if runs_for i a then suc n else n

running_turns-free :
    (i : String) (rows : List Attempt)
    → find_row (runs_for i) rows ≡ none
    → running_turns i rows ≡ 0
unfolding running_turns find_row
running_turns-free i [] free = refl
running_turns-free i (a ∷ rest) free = ground (arith, running_turns-free i rest)

running_turns-insert :
    (i : String) (a : Attempt) (rows : List Attempt)
    → find_row (runs_for a.item) rows ≡ none
    → running_turns i rows ≤ 1
    → running_turns i (insert_row a rows) ≤ 1
unfolding running_turns insert_row
running_turns-insert i a rows free h =
    ground (arith, eq_iff a.item i, running_turns-free a.item rows free, running_turns-free i rows)

running_turns-end :
    (i k status : String) (result detail session : Option String) (now : ℕ) (a : Attempt)
    (rows : List Attempt)
    → find_row (is_attempt k) rows ≡ some a
    → is_live a ≡ true
    → running_turns i (update_row (is_attempt k) (ended status result detail session now) rows)
      ≤ running_turns i rows
unfolding running_turns find_row update_row ended
running_turns-end i k status result detail session now a [] found live = omega arith
running_turns-end i k status result detail session now a (x ∷ rest) found live =
    ground (arith, running_turns-end i k status result detail session now a rest)

running_turns-lose :
    (i k : String) (now : ℕ) (rows : List Attempt)
    → running_turns i (update_row (λ b. is_attempt k b && is_live b) (orphaned now) rows)
      ≤ running_turns i rows
unfolding running_turns update_row orphaned
running_turns-lose i k now [] = omega arith
running_turns-lose i k now (x ∷ rest) = ground (arith, running_turns-lose i k now rest)

abbrev pub OneTurn : Db → Type 0
OneTurn d = (i : String) → running_turns i d.attempts ≤ 1

OneTurn-edit : (e : Edit) → IsPlain e → (d : Db) → OneTurn d → OneTurn (edited e d)
unfolding edited
OneTurn-edit (attempts f) plain d h = absurd plain
OneTurn-edit _ plain d h = h

OneTurn-rule : Rule OneTurn
unfolding edited
OneTurn-rule = record {
  edit = OneTurn-edit;
  log = λ e d h. h;
  start = λ a d free h i. running_turns-insert i a d.attempts free (h i);
  end = λ k status result detail session now a d found live h i.
      omega (
        arith,
        h i,
        running_turns-end i k status result detail session now a d.attempts found live,
      );
  lose = λ k now d h i. omega (arith, h i, running_turns-lose i k now d.attempts);
  move = λ i new leaving last fields now r d found legal h. h;
  touch = λ i t d h. h;
  cancel = λ i candidate now r d found stacked h. h;
  insert = λ r d free begins h. h;
}

-- From a store in which no item has two RUNNING attempts, no history of verbs, in whatever worlds,
-- leads to one in which some item has.
pub history-OneTurn :
    (steps : List (Env × Command)) (s : Store)
    → ((i : String) → running_turns i s.db.attempts ≤ 1)
    → (i : String) → running_turns i (history steps s).db.attempts ≤ 1
history-OneTurn steps s h = history-keeps OneTurn-rule steps s h
