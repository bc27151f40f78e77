-- ===== src/Store/Success.antt =====
-- What an action that succeeds has gone through: its steps succeeded (vp/vpstore.py).
use voice_pod_dispatcher.Prelude.{String, ◌≡◌, refl, Option, none, some, [], arith}
use voice_pod_dispatcher.Store.Schema.{Db, Store, Env}
use voice_pod_dispatcher.Store.Tx.{Action, Result, ok, err, pure, raise, finish, tx, go_on, ◌>>=◌}
use voice_pod_dispatcher.Store.Traffic.{raise_or}

module _ {A B : Type 0} where
  go_on_ok :
      (r : Result A) (f : A → Action B) (s : Store) (b : B)
      → (go_on f r s).0 ≡ ok b
      → (a : A) × (r ≡ ok a) × ((f a s).0 ≡ ok b)
  go_on_ok (ok a) f s b h = (a, refl, h)
  go_on_ok (err e) f s b h = cc

  -- An action that succeeds has a first step that succeeds.
  pub bind_ok :
      (m : Action A) (f : A → Action B) (s : Store) (b : B)
      → ((m >>= f) s).0 ≡ ok b
      → (a : A) × ((m s).0 ≡ ok a) × ((f a (m s).1).0 ≡ ok b)
  unfolding ◌>>=◌
  bind_ok m f s b h = go_on_ok (m s).0 f (m s).1 b h

  pub bind_never :
      (m : Action A) (f : A → Action B) (s : Store) (b : B)
      → ((a : A) (t : Store) → (f a t).0 ≡ ok b → ⊥)
      → ((m >>= f) s).0 ≡ ok b
      → ⊥
  bind_never m f s b never h = let (a, _, h') = bind_ok m f s b h in never a (m s).1 h'

module _ {A : Type 0} (env : Env) where
  finish_ok :
      (before : Db) (r : Result A) (s : Store) (a : A) → (finish env before r s).0 ≡ ok a → r ≡ ok a
  unfolding finish
  finish_ok before (ok b) s a h = ground (arith, h)
  finish_ok before (err e) s a h = h

  pub tx_ok :
      (m : Action A) (s : Store) (a : A)
      → (tx env m s).0 ≡ ok a
      → (m (record s { pending = [] })).0 ≡ ok a
  unfolding tx
  tx_ok m s a h = finish_ok s.db (m (record s { pending = [] })).0 _ a h

pub none_no_name : (p : String) (r : Result (Option String)) → r ≡ ok none → r ≡ ok (some p) → ⊥
none_no_name p r e h = cc

pub raise_or_ok :
    {A : Type 0} (o : Option A) (a : A) (s : Store) → (raise_or o s).0 ≡ ok a → o ≡ some a
unfolding raise_or raise pure
raise_or_ok none a s h = cc
raise_or_ok (some b) a s h = cc
