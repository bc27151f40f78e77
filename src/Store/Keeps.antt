-- ===== src/Store/Keeps.antt =====
-- Invariants of the database, one rule for each way to build an action (vp/vpstore.py).
-- What a transaction rolls back is kept by itself.
use voice_pod_dispatcher.Prelude.{
  ◌≡◌, refl, Bool, true, false, Option, none, some, List, [], ◌∷◌, if◌then◌else◌, arith,
}
use voice_pod_dispatcher.Store.Schema.{Db, Store, Env, Line}
use voice_pod_dispatcher.Store.Tx.{
  Action, Error, Result, ok, err, pure, raise, gets, some_or, raise_if, do_if, for_each, tx, finish,
  go_on, ◌>>=◌,
}
use voice_pod_dispatcher.Store.Log.{queue_line}

-- `m` keeps `Q`, whether it returns or raises.
pub record Keeps {A : Type 0} (Q : Db → Type 0) (m : Action A) : Type 0 where
  pub at : (s : Store) → Q s.db → Q (m s).1.db

finish_cases :
    {A : Type 0} (Q : Db → Type 0) (env : Env) (before : Db) (r : Result A) (s : Store)
    → Q before
    → Q s.db
    → Q (finish env before r s).1.db
unfolding finish
finish_cases Q env before (err e) s old new = old
finish_cases Q env before (ok a) s old new = ground arith

module _ {Q : Db → Type 0} where
  pub Keeps-pure : {A : Type 0} (a : A) → Keeps Q (pure a)
  unfolding pure
  Keeps-pure a = record { at = λ s h. h }

  pub Keeps-raise : {A : Type 0} (e : Error) → Keeps Q (raise {A = A} e)
  unfolding raise
  Keeps-raise e = record { at = λ s h. h }

  pub Keeps-gets : {A : Type 0} (f : Db → A) → Keeps Q (gets f)
  unfolding gets
  Keeps-gets f = record { at = λ s h. h }

  pub Keeps-queue_line : (l : Line) → Keeps Q (queue_line l)
  unfolding queue_line
  Keeps-queue_line l = record { at = λ s h. h }

  pub Keeps-some_or : {A : Type 0} (e : Error) (o : Option A) → Keeps Q (some_or e o)
  unfolding some_or
  Keeps-some_or e none = record { at = λ s h. h }
  Keeps-some_or e (some a) = record { at = λ s h. h }

  pub Keeps-if :
      {A : Type 0} (b : Bool) (m n : Action A)
      → (b ≡ true → Keeps Q m)
      → (b ≡ false → Keeps Q n)
      → Keeps Q (if b then m else n)
  Keeps-if true m n km kn = km refl
  Keeps-if false m n km kn = kn refl

  pub Keeps-raise_if : (b : Bool) (e : Error) → Keeps Q (raise_if b e)
  unfolding raise_if
  Keeps-raise_if true e = record { at = λ s h. h }
  Keeps-raise_if false e = record { at = λ s h. h }

  pub Keeps-do_if : (b : Bool) (m : Action (Unit {0})) → Keeps Q m → Keeps Q (do_if b m)
  unfolding do_if
  Keeps-do_if true m k = k
  Keeps-do_if false m k = Keeps-pure tt

  Keeps-go_on :
      {A B : Type 0} (f : A → Action B) (r : Result A)
      → ((a : A) → Keeps Q (f a))
      → (s : Store) → Q s.db
      → Q (go_on f r s).1.db
  Keeps-go_on f (ok a) k s h = (k a).at s h
  Keeps-go_on f (err e) k s h = h

  pub Keeps-bind :
      {A B : Type 0} (m : Action A) (f : A → Action B)
      → Keeps Q m
      → ((a : A) → Keeps Q (f a))
      → Keeps Q (m >>= f)
  unfolding ◌>>=◌
  Keeps-bind m f km kf = record { at = λ s h. Keeps-go_on f (m s).0 kf (m s).1 (km.at s h) }

  pub Keeps-for_each :
      {A : Type 0} (xs : List A) (f : A → Action (Unit {0}))
      → ((x : A) → Keeps Q (f x))
      → Keeps Q (for_each xs f)
  unfolding for_each
  Keeps-for_each [] f k = Keeps-pure tt
  Keeps-for_each (x ∷ xs) f k =
      Keeps-bind (f x) (λ _. for_each xs f) (k x) (λ _. Keeps-for_each xs f k)

  pub Keeps-tx : {A : Type 0} (env : Env) (m : Action A) → Keeps Q m → Keeps Q (tx env m)
  unfolding tx
  Keeps-tx {A} env m k = record {
    at = λ s h.
        let t : Store = record s { pending = [] } in
        finish_cases Q env s.db (m t).0 (m t).1 h (k.at t h);
  }

pub ruleset keeps_rules = (
  Keeps-pure, Keeps-raise, Keeps-gets, Keeps-queue_line, Keeps-some_or, Keeps-if, Keeps-raise_if,
  Keeps-do_if, Keeps-bind, Keeps-for_each, Keeps-tx,
)
