-- ===== src/Store/Tx.antt =====
-- vp/vpstore.py: exceptions, and `Store.tx`. A step of a transaction returns or raises, and what
-- it wrote before it raised stays written until the transaction rolls it back.
use voice_pod_dispatcher.Prelude.{
  ℕ, ◌+◌, Bool, true, false, List, [], ◌∷◌, Option, none, some, if◌then◌else◌,
}
use voice_pod_dispatcher.Store.Schema.{Line, Store, Env, Db}

-- Usage, Refused, Conflict, and the OSError of a failed append.
pub data Error : Type 0 where
  usage refused conflict os_error : Error

pub data Result (A : Type 0) : Type 0 where
  ok : A → Result A
  err : Error → Result A

abbrev pub Action : Type 0 → Type 0
Action A = Store → Result A × Store

module _ {A : Type 0} where
  unfoldable pub pure : A → Action A
  pure a s = (ok a, s)

  unfoldable pub raise : Error → Action A
  raise e s = (err e, s)

  unfoldable pub gets : (Db → A) → Action A
  gets f s = (ok (f s.db), s)

  -- `if not row: raise …`
  unfoldable pub some_or : Error → Option A → Action A
  unfolding raise pure
  some_or e none = raise e
  some_or e (some a) = pure a

module _ {A B : Type 0} where
  abbrev pub go_on : (A → Action B) → Result A → Action B
  go_on f (ok a) s = f a s
  go_on f (err e) s = (err e, s)

  infixl 10 ◌>>=◌ ◌>>◌
  unfoldable pub ◌>>=◌ : Action A → (A → Action B) → Action B
  ◌>>=◌ m f s = go_on f (m s).0 (m s).1

  abbrev pub ◌>>◌ : Action A → Action B → Action B
  m >> n = m >>= λ _. n

unfoldable pub raise_if : Bool → Error → Action (Unit {0})
unfolding raise pure
raise_if b e = if b then raise e else pure tt

unfoldable pub do_if : Bool → Action (Unit {0}) → Action (Unit {0})
unfolding pure
do_if b m = if b then m else pure tt

unfoldable pub for_each : {A : Type 0} → List A → (A → Action (Unit {0})) → Action (Unit {0})
unfolding pure
for_each [] f = pure tt
for_each (x ∷ xs) f = f x >> for_each xs f

-- The loop over `_pending_lines`, the oldest first: the lines that reach the files, and whether
-- all of them did.
unfoldable pub append_lines : (ℕ → Bool) → ℕ → List Line → List Line → Bool × List Line
append_lines works n [] disk = (true, disk)
append_lines works n (l ∷ ls) disk =
    let rest = append_lines works (n + 1) ls (l ∷ disk) in if works n then rest else (false, disk)

unfoldable pub oldest_first : List Line → List Line → List Line
oldest_first [] acc = acc
oldest_first (l ∷ ls) acc = oldest_first ls (l ∷ acc)

-- The end of a transaction that began with the database `before`: ROLLBACK, or the file lines and
-- COMMIT.
unfoldable pub finish : {A : Type 0} → Env → Db → Result A → Store → Result A × Store
unfolding append_lines oldest_first
finish env before (err e) s = (err e, record s { db = before; pending = [] })
finish env before (ok a) s =
    let (written, disk) = append_lines env.append_ok 0 (oldest_first s.pending []) s.disk in
    if written
    then (ok a, record s { pending = []; disk = disk })
    else (err os_error, record { db = before; pending = []; disk = disk })

-- with self.tx(): …
unfoldable pub tx : {A : Type 0} → Env → Action A → Action A
unfolding finish
tx env body s = let (r, s') = body (record s { pending = [] }) in finish env s.db r s'
