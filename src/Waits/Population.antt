-- ===== src/Waits/Population.antt =====
-- pglock.py: the runs that could wait for the lock.
use voice_pod_dispatcher.Prelude.{
  ℕ, ◌-◌, String, str_eq, Bool, false, not, ◌&&◌, ◌||◌, Option, none, some, List, [], ◌∷◌, ◌==◌,
  if◌then◌else◌, ltb,
}
use voice_pod_dispatcher.Gate.Words.{contains}

-- A marker that a run writes; its session is the last name of its root or of its directory.
pub record Marker : Type 0 where
  pub owner_pid : Option ℕ
  pub owner_started_at : Option ℕ
  pub suite_root : Option String
  pub pgdata : Option String
  pub session : String

pub record BoxRun : Type 0 where
  pub pid : ℕ
  pub started_at : ℕ
  pub suite_root : String
  pub pgdata : Option String
  pub session : String
  pub owner : Option String
  pub postmaster : Option ℕ

-- What is read of the box: the start of a live process (`start_time`), the name in the owner file
-- of the box lock, and the postmaster of a data directory.
pub record Sights : Type 0 where
  pub start_time : ℕ → Option ℕ
  pub box_owner : Option String
  pub postmaster : Option String → Option ℕ

-- Whether a start is not the one that a marker claims.
abbrev pub is_reused : (tolerance : ℕ) → (claimed : Option ℕ) → (start : ℕ) → Bool
is_reused tolerance none start = false
is_reused tolerance (some claimed) start =
    ltb tolerance (claimed - start) || ltb tolerance (start - claimed)

abbrev root_or : Option String → String
root_or root = elim root [
  | none ↦ "(no suite_root in marker)"
  | some path ↦ if str_eq path "" then "(no suite_root in marker)" else path
]

abbrev label : Option String → String → Option String
label none suite = none
label (some name) suite = if not (str_eq name "") && contains suite name then some name else none

abbrev pub row : Sights → Marker → (pid start : ℕ) → BoxRun
row s m pid start = record {
  pid = pid;
  started_at = start;
  suite_root = root_or m.suite_root;
  pgdata = m.pgdata;
  session = m.session;
  owner = label s.box_owner (root_or m.suite_root);
  postmaster = s.postmaster m.pgdata;
}

-- One turn of the loop.
unfoldable pub row_of : Sights → (tolerance : ℕ) → Marker → Option BoxRun
row_of s tolerance m = elim m.owner_pid [
  | none ↦ none
  | some pid ↦ if pid == 0 then none else elim (s.start_time pid) [
    | none ↦ none
    | some start ↦
        if is_reused tolerance m.owner_started_at start then none else some (row s m pid start)
  ]
]

unfoldable pub rows_of : Sights → (tolerance : ℕ) → List Marker → List BoxRun
unfolding row_of
rows_of s tolerance [] = []
rows_of s tolerance (m ∷ ms) =
    let rest = rows_of s tolerance ms in
    elim (row_of s tolerance m) [ none ↦ rest | some r ↦ r ∷ rest ]

-- The third component of `population`.
pub data Seen : Type 0 where
  some_runs no_runs cannot_see : Seen

abbrev pub seen : List BoxRun → Seen
seen [] = no_runs
seen (r ∷ rs) = some_runs

-- `population`, with the markers that `read_markers` finds; the notes are left out.
unfoldable pub population : Sights → (tolerance : ℕ) → Option (List Marker) → List BoxRun × Seen
unfolding rows_of
population s tolerance none = ([], cannot_see)
population s tolerance (some ms) = let rs = rows_of s tolerance ms in (rs, seen rs)
