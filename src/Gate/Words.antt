-- ===== src/Gate/Words.antt =====
-- The tests on texts that autogate.py makes: `in`, `upper`, `lower` (of ASCII letters), and its
-- regular expressions, which Python's `re` evaluates.
use Prim.Native.Char.{Char, code}
use Prim.Native.String.{String, slice, [], ◌∷◌, ◌++◌ as join}
use text.Mathlib.Text.{find?}
use voice_pod_dispatcher.Prelude.{◌-◌, ◌+◌, Bool, ◌&&◌, Option, List, if◌then◌else◌, leb, is_some}

-- t in s
abbrev pub contains : (s t : String) → Bool
contains s t = is_some (find? s t)

one_letter : Char → String
one_letter c = c ∷ []

upper_letter : Char → String
unfolding one_letter
upper_letter c =
    if leb 97 (code c) && leb (code c) 122
    then slice "ABCDEFGHIJKLMNOPQRSTUVWXYZ" (code c - 97) (code c - 97 + 1)
    else one_letter c

lower_letter : Char → String
unfolding one_letter
lower_letter c =
    if leb 65 (code c) && leb (code c) 90
    then slice "abcdefghijklmnopqrstuvwxyz" (code c - 65) (code c - 65 + 1)
    else one_letter c

-- s.upper()
unfoldable pub upper : String → String
unfolding upper_letter
upper [] = ""
upper (c ∷ s) = join (upper_letter c) (upper s)

-- s.lower()
unfoldable pub lower : String → String
unfolding lower_letter
lower [] = ""
lower (c ∷ s) = join (lower_letter c) (lower s)

-- What the regular expressions find in a text: `\brc=0\b`, the word after `verdict=`, the classes
-- `severity:file` of a review (`finding_classes`), and the report paths (`REPORT_PATH_RE`).
pub record Patterns : Type 0 where
  pub rc_zero : String → Bool
  pub verdict_word : String → Option String
  pub classes : String → List String
  pub report_paths : String → List String
