-- ===== src/Launch/Ensures.antt =====
-- What holds of every value that a command ends with, one rule for each way to build a command
-- (ci/control/orchestration_control.py).
use voice_pod_dispatcher.Prelude.{
  ◌≡◌, refl, subst, Bool, true, false, Option, none, some, if◌then◌else◌, arith,
}
use voice_pod_dispatcher.Launch.Check.{
  Check, Fault, ok, err, ◌>>=◌, ◌>>◌, refuse_if, at_key, needed,
}

pub record Ensures {A : Type 0} (P : A → Type 0) (m : Check A) : Type 0 where
  pub at : (a : A) → m ≡ ok a → P a

ok_injective : {A : Type 0} {a b : A} → ok a ≡ ok b → a ≡ b
ok_injective e = ground arith

module _ {A : Type 0} {P : A → Type 0} where
  pub Ensures-ok : (a : A) → P a → Ensures P (ok a)
  Ensures-ok a p = record { at = λ b e. subst P (ok_injective e) p }

  pub Ensures-err : (e : Fault) → Ensures P (err e)
  Ensures-err e = record { at = λ b q. absurd (ground arith) }

module _ {B : Type 0} {P : B → Type 0} where
  pub after_value :
      {A : Type 0} (m : Check A) (f : A → Check B)
      → ((a : A) → m ≡ ok a → Ensures P (f a))
      → Ensures P (m >>= f)
  after_value (ok a) f h = h a refl
  after_value (err e) f h = Ensures-err e

  pub after_refusal :
      (b : Bool) (k : Check B) → (b ≡ false → Ensures P k) → Ensures P (refuse_if b >> k)
  unfolding refuse_if
  after_refusal true k h = Ensures-err _
  after_refusal false k h = h refl

  pub after_find :
      {A : Type 0} (o : Option A) (f : A → Check B)
      → ((a : A) → o ≡ some a → Ensures P (f a))
      → Ensures P (at_key o >>= f)
  unfolding at_key
  after_find none f h = Ensures-err _
  after_find (some a) f h = h a refl

  pub after_needed :
      {A : Type 0} (o : Option A) (f : A → Check B)
      → ((a : A) → o ≡ some a → Ensures P (f a))
      → Ensures P (needed o >>= f)
  unfolding needed
  after_needed none f h = Ensures-err _
  after_needed (some a) f h = h a refl

  pub Ensures-if :
      (b : Bool) (m n : Check B)
      → (b ≡ true → Ensures P m)
      → (b ≡ false → Ensures P n)
      → Ensures P (if b then m else n)
  Ensures-if true m n hm hn = hm refl
  Ensures-if false m n hm hn = hn refl

pub refused-not : (b : Bool) → refuse_if b ≡ ok tt → b ≡ false
unfolding refuse_if
refused-not true e = ground arith
refused-not false e = refl
