-- ===== src/Box/Locks.antt =====
-- vp/vp_box_lock.py: the four lock directories, one attempt at one of them, and the release.
-- A step of one process is a function of the directories. What the file system and the other
-- processes do in the middle of a step is in `World`. Log lines and the texts of the reasons are
-- left out, and so is an owner.json that cannot be written.
use voice_pod_dispatcher.Prelude.{
  ℕ, String, str_eq, Bool, true, false, not, ◌&&◌, ◌||◌, Option, none, some, List, [], ◌∷◌,
  if◌then◌else◌, ltb, ◌==◌,
}

pub data Tier : Type 0 where
  exclusive slot : Tier

-- LOCK_NAMES
pub data LockName : Type 0 where
  box slot_0 slot_1 portal : LockName

abbrev index : LockName → ℕ
index box = 0
index slot_0 = 1
index slot_1 = 2
index portal = 3

unfoldable pub same_lock : LockName → LockName → Bool
same_lock a b = index a == index b

unfoldable pub among : LockName → List LockName → Bool
among n [] = false
among n (m ∷ ms) = same_lock n m || among n ms

-- owner.json. A `pid` of 0 stands for one that is missing or null.
pub record Owner : Type 0 where
  pub pid : ℕ
  pub token : String
  pub proof_id : String
  pub tier : Tier

-- A lock directory: its owner.json, where there is one to read, and its age in seconds.
pub record Dir : Type 0 where
  pub owner : Option Owner
  pub age : ℕ

-- What a BoxLocks object is made with.
pub record Me : Type 0 where
  pub pid : ℕ
  pub token : String
  pub proof_id : String
  pub tier : Tier
  pub is_portal : Bool

-- The processes that run, whether the calls on a directory succeed, and the directory that another
-- process makes between the `rmdir` and the `mkdir` of a reaping, if one does.
pub record World : Type 0 where
  pub alive : ℕ → Bool
  pub mkdir_ok : LockName → Bool
  pub unlink_ok : LockName → Bool
  pub rmdir_ok : LockName → Bool
  pub beaten : LockName → Option Dir

-- The directories, the list `held` (the newest first), and the locks that BOX_LOCK_REAPED named.
pub record Locks : Type 0 where
  pub dirs : LockName → Option Dir
  pub held : List LockName
  pub reaped : List LockName

-- STALE_S, TARGETED_MAX_PATHS
abbrev pub stale_s : ℕ
stale_s = 300

abbrev pub targeted_max_paths : ℕ
targeted_max_paths = 8

-- The number that the configuration gives for `targeted_max_paths`, if it gives one.
unfoldable pub tier_for : (kind : String) (paths : ℕ) → Option ℕ → Tier
tier_for kind paths cap =
    if str_eq kind "full"
    then exclusive
    else if ltb (elim cap [ none ↦ targeted_max_paths | some n ↦ n ]) paths
    then exclusive
    else slot

unfoldable pub names_for : Tier → Bool → List LockName
names_for exclusive is_portal = box ∷ slot_0 ∷ slot_1 ∷ portal ∷ []
names_for slot is_portal = slot_0 ∷ slot_1 ∷ (if is_portal then portal ∷ [] else [])

unfoldable pub put : LockName → Option Dir → (LockName → Option Dir) → LockName → Option Dir
put n d dirs m = if same_lock m n then d else dirs m

-- `pid and self.alive(pid)`
abbrev pub is_live : World → Option Owner → Bool
is_live w none = false
is_live w (some o) = not (o.pid == 0) && w.alive o.pid

-- `pid or self._dir_age(d) > STALE_S`
unfoldable pub may_reap : Dir → Bool
may_reap d = elim d.owner [
  | none ↦ ltb stale_s d.age
  | some o ↦ not (o.pid == 0) || ltb stale_s d.age
]

-- What `op.unlink()` and `os.rmdir(d)` leave: a directory that still has its file stays.
unfoldable pub remove_dir : World → LockName → Dir → Option Dir
remove_dir w n d = elim d.owner [
  | none ↦ if w.rmdir_ok n then none else some d
  | some o ↦
      if not (w.unlink_ok n)
      then some d
      else if w.rmdir_ok n
      then none
      else some (record { owner = none; age = d.age })
]

-- self.held.remove(name)
unfoldable pub remove_held : LockName → List LockName → List LockName
remove_held n [] = []
remove_held n (m ∷ ms) = let rest = remove_held n ms in if same_lock n m then ms else m ∷ rest

-- own.get("token") == self.token
abbrev pub is_mine : Me → Dir → Bool
is_mine me d = elim d.owner [ none ↦ false | some o ↦ str_eq o.token me.token ]

module _ (me : Me) (w : World) where
  abbrev pub my_dir : Dir
  my_dir = record {
    owner =
        some (record { pid = me.pid; token = me.token; proof_id = me.proof_id; tier = me.tier });
    age = 0;
  }

  -- mkdir and the writing of owner.json, where mkdir succeeds.
  unfoldable pub take : LockName → Locks → Locks
  take n s = record s { dirs = put n (some my_dir) s.dirs; held = n ∷ s.held }

  unfoldable pub beaten_by : LockName → Option Dir → Locks → Bool × Locks
  beaten_by n none s = (true, take n s)
  beaten_by n (some d) s = (false, record s { dirs = put n (some d) s.dirs })

  unfoldable pub after_removal : LockName → Option Dir → Locks → Bool × Locks
  unfolding beaten_by
  after_removal n (some left) s = (false, record s { dirs = put n (some left) s.dirs })
  after_removal n none s = beaten_by n (w.beaten n) s

  -- The attempt, by what stands at the name.
  unfoldable pub try_dir : LockName → Option Dir → Locks → Bool × Locks
  unfolding after_removal
  try_dir n none s = if w.mkdir_ok n then (true, take n s) else (false, s)
  try_dir n (some d) s =
      if is_live w d.owner
      then (false, s)
      else if may_reap d
      then after_removal n (remove_dir w n d) (record s { reaped = n ∷ s.reaped })
      else (false, s)

  -- _try_one
  unfoldable pub try_one : LockName → Locks → Bool × Locks
  try_one n s = try_dir n (s.dirs n) s

  unfoldable pub pending_dir : Option Dir → Locks → Bool × Locks
  pending_dir left s =
      (elim left [ none ↦ false | some _ ↦ true ], record s { dirs = put box left s.dirs })

  unfoldable pub pending_by : Option Dir → Locks → Bool × Locks
  unfolding pending_dir
  pending_by none s = (false, s)
  pending_by (some d) s =
      if is_live w d.owner
      then (true, s)
      else if may_reap d
      then pending_dir (remove_dir w box d) (record s { reaped = box ∷ s.reaped })
      else (true, s)

  -- _box_pending
  unfoldable pub box_pending : Locks → Bool × Locks
  box_pending s = pending_by (s.dirs box) s

  -- The body of the loop of `release`.
  unfoldable pub drop : LockName → Locks → Locks
  drop n s = record s {
    dirs =
        put n
          (elim (s.dirs n) [
            | none ↦ none
            | some d ↦ if is_mine me d then remove_dir w n d else some d
          ])
          s.dirs;
    held = remove_held n s.held;
  }

  unfoldable pub release_names : List LockName → List LockName → Locks → Locks
  release_names keep [] s = s
  release_names keep (n ∷ ns) s = release_names keep ns (if among n keep then s else drop n s)

  unfoldable pub release : List LockName → Locks → Locks
  release keep s = release_names keep s.held s
