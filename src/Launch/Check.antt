-- ===== src/Launch/Check.antt =====
-- ci/control/orchestration_control.py: a command ends with a value or with an exception.
use voice_pod_dispatcher.Prelude.{Bool, true, false, Option, none, some, List, [], ◌∷◌}

-- RuntimeError, KeyError, ValueError, OSError, SystemExit
pub data Fault : Type 0 where
  runtime_error key_error value_error os_error system_exit : Fault

pub data Check (A : Type 0) : Type 0 where
  ok : A → Check A
  err : Fault → Check A

infixl 10 ◌>>=◌ ◌>>◌
-- What follows is left out once an exception is raised.
abbrev pub ◌>>=◌ : {A B : Type 0} (done : Check A) (next : A → Check B) → Check B
◌>>=◌ done next = elim done [ ok value ↦ next value | err fault ↦ err fault ]

abbrev pub ◌>>◌ : {B : Type 0} (done : Check (Unit {0})) (next : Check B) → Check B
◌>>◌ done next = elim done [ ok _ ↦ next | err fault ↦ err fault ]

-- if b: raise RuntimeError
unfoldable pub refuse_if : Bool → Check (Unit {0})
refuse_if true = err runtime_error
refuse_if false = ok tt

-- d[key]
unfoldable pub at_key : {A : Type 0} → Option A → Check A
at_key none = err key_error
at_key (some a) = ok a

-- A value that the code needs, or else a RuntimeError.
unfoldable pub needed : {A : Type 0} → Option A → Check A
needed none = err runtime_error
needed (some a) = ok a

-- [f(x) for x in xs], until one raises
unfoldable pub each : {A B : Type 0} → (A → Check B) → List A → Check (List B)
each f [] = ok []
each f (x ∷ xs) = do y ← f x; ys ← each f xs; ok (y ∷ ys)

-- The same for `raise ValueError` and `raise SystemExit`.
unfoldable pub invalid_if : Bool → Check (Unit {0})
invalid_if true = err value_error
invalid_if false = ok tt

unfoldable pub exit_if : Bool → Check (Unit {0})
exit_if true = err system_exit
exit_if false = ok tt

-- A file that is read.
abbrev pub readable : {A : Type 0} → Option A → Check A
readable none = err os_error
readable (some a) = ok a
