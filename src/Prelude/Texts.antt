-- ===== src/Prelude/Texts.antt =====
-- Texts as the program uses them: compared whole, printed from numbers, tested for emptiness.
use Prim.Native.Nat.{ℕ, zero, suc, ◌/◌, ◌%◌}
use Prim.Native.String.{String, ◌++◌ as join}
use mathlib.Core.Bool.{Bool, true, false, ◌||◌}
use mathlib.Core.Option.{Option, none, some}
use mathlib.Core.List.{List, [], ◌∷◌}
use text.Mathlib.Text.{◌==◌ as str_eq}
use voice_pod_dispatcher.Prelude.Tests.{if◌then◌else◌, ltb}

-- x in (…)
abbrev pub is_among : String → List String → Bool
is_among s [] = false
is_among s (t ∷ ts) = str_eq s t || is_among s ts

-- Python takes None and the empty text for false.
abbrev pub truthy : Option String → Bool
truthy none = false
truthy (some s) = if str_eq s "" then false else true

abbrev pub same_text : Option String → Option String → Bool
same_text none none = true
same_text (some s) (some t) = str_eq s t
same_text _ _ = false

-- COALESCE(x, y), `x or y` of optional values
abbrev pub or_else {ℓ} : {A : Type ℓ} → Option A → Option A → Option A
or_else none y = y
or_else (some x) y = some x

abbrev pub concat : List String → String
concat [] = ""
concat (s ∷ ss) = join s (concat ss)

digit : ℕ → String
digit zero = "0"
digit (suc zero) = "1"
digit (suc (suc zero)) = "2"
digit (suc (suc (suc zero))) = "3"
digit (suc (suc (suc (suc zero)))) = "4"
digit (suc (suc (suc (suc (suc zero))))) = "5"
digit (suc (suc (suc (suc (suc (suc zero)))))) = "6"
digit (suc (suc (suc (suc (suc (suc (suc zero))))))) = "7"
digit (suc (suc (suc (suc (suc (suc (suc (suc zero)))))))) = "8"
digit _ = "9"

-- The decimal digits, with the number itself as fuel: a number has fewer digits than its value + 1.
digits_fuel : ℕ → ℕ → String
digits_fuel zero n = ""
digits_fuel (suc f) n =
    let more = digits_fuel f (n / 10) in if ltb n 10 then digit n else join more (digit (n % 10))

-- str(n)
unfoldable pub str_of : ℕ → String
unfolding digit digits_fuel
str_of n = digits_fuel (suc n) n

-- f"{n:05d}"
unfoldable pub pad5 : ℕ → String
unfolding str_of
pad5 n =
    let zeros =
      if ltb n 10
      then "0000"
      else if ltb n 100
      then "000"
      else if ltb n 1000
      then "00"
      else if ltb n 10000
      then "0"
      else "" in
    join zeros (str_of n)
