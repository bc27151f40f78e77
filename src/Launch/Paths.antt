-- ===== src/Launch/Paths.antt =====
-- ci/control/orchestration_control.py: the paths that a claim owns.
use Prim.Native.Char.{code}
use Prim.Native.String.{String, [], ◌∷◌, ◌++◌ as join}
use mathlib.Core.List.{List}
use text.Mathlib.Text.{starts_with, ◌==◌ as str_eq}
use voice_pod_dispatcher.Prelude.{Bool, ◌||◌, ◌==◌, if◌then◌else◌, is_among}
use voice_pod_dispatcher.Gate.Words.{contains}
use voice_pod_dispatcher.Launch.Check.{Check, ok, err, value_error, ◌>>=◌}

-- s.split("/"), with the letters of the part before `s` in `part`
unfoldable pub split_slash : String → (part : String) → List String
split_slash [] part = List.◌∷◌ part List.[]
split_slash (c ∷ s) part =
    let next = split_slash s (join part (c ∷ [])) in
    let rest = split_slash s "" in if code c == 47 then List.◌∷◌ part rest else next

-- PurePosixPath(raw).parts of a relative path
unfoldable pub drop_dots : List String → List String
drop_dots List.[] = List.[]
drop_dots (List.◌∷◌ p ps) =
    let rest = drop_dots ps in if str_eq p "" || str_eq p "." then rest else List.◌∷◌ p rest

unfoldable pub join_slash : List String → String
join_slash List.[] = "."
join_slash (List.◌∷◌ p List.[]) = p
join_slash (List.◌∷◌ p (List.◌∷◌ q ps)) = join p (join "/" (join_slash (List.◌∷◌ q ps)))

unfoldable pub parts : String → List String
unfolding split_slash drop_dots
parts raw = drop_dots (split_slash raw "")

unfoldable pub is_glob : String → Bool
is_glob raw = contains raw "*" || contains raw "?" || contains raw "[" || contains raw "]"

unfoldable pub normalize_path : String → Check String
unfolding is_glob parts join_slash
normalize_path raw =
    let value = join_slash (parts raw) in
    if str_eq raw "" || starts_with raw "/"
    then err value_error
    else if is_glob raw
    then err value_error
    else if str_eq value "." || is_among ".." (parts raw)
    then err value_error
    else ok value

-- The test of `paths_conflict`, on normalized paths.
unfoldable pub overlap : String → String → Bool
overlap left right =
    str_eq left right || starts_with left (join right "/") || starts_with right (join left "/")

unfoldable pub paths_conflict : String → String → Check Bool
unfolding overlap
paths_conflict left right = do l ← normalize_path left; r ← normalize_path right; ok (overlap l r)
