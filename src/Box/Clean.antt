-- ===== src/Box/Clean.antt =====
-- What a process leaves on disk while it waits and when it gives up (vp/vp_box_lock.py, `release`,
-- `acquire`).
use voice_pod_dispatcher.Prelude.{
  ◌≡◌, refl, ap, ◌∙◌, sym, Bool, true, false, Option, none, some, List, [], ◌∷◌, if◌then◌else◌,
  arith, Bool-cases, Option-cases, inl, inr,
}
use voice_pod_dispatcher.Box.Locks.{
  LockName, same_lock, among, Dir, Me, World, Locks, put, remove_dir, remove_held, is_mine, drop,
  release_names, release,
}
use voice_pod_dispatcher.Box.Holders.{same_lock-eq, put-other, put-same}
use voice_pod_dispatcher.Box.Rounds.{round, Turn, kept, acquire}
use voice_pod_dispatcher.Box.Waiting.{release-loose, among-empty}
use voice_pod_dispatcher.Box.Covers.{mine, Covers, Foreign, Covers-round}

-- The calls that remove a lock directory succeed.
abbrev pub Removes : World → Type 0
Removes w = (n : LockName) → (w.unlink_ok n ≡ true) × (w.rmdir_ok n ≡ true)

module _ (me : Me) where
  -- The name is not in `held`, and no directory at it has the token.
  abbrev pub Gone : LockName → Locks → Type 0
  Gone n s = (among n s.held ≡ false) × (mine me (s.dirs n) ≡ false)

  not_held :
      (n : LockName) (s : Locks) → Covers me s → among n s.held ≡ false → mine me (s.dirs n) ≡ false
  not_held n s covers free = elim (Bool-cases (mine me (s.dirs n))) [
    | inl own ↦ absurd (ground (arith, free, covers n own))
    | inr gone ↦ gone
  ]

  among-remove_held :
      (m n : LockName) (ns : List LockName)
      → same_lock m n ≡ false
      → among m ns ≡ true
      → among m (remove_held n ns) ≡ true
  unfolding among remove_held same_lock
  among-remove_held m n [] other e = e
  among-remove_held m n (k ∷ ns) other e = ground (arith, e, among-remove_held m n ns other)

  module _ (w : World) (removes : Removes w) where
    removed : (n : LockName) (d : Dir) → remove_dir w n d ≡ none
    unfolding remove_dir
    removed n d = elim (Option-cases d.owner) [
      | inl unknown ↦ rw (unknown, (removes n).1) refl
      | inr (o, owned) ↦ rw (owned, (removes n).0, (removes n).1) refl
    ]

    -- What `drop` leaves of a directory.
    abbrev left_of : LockName → Option Dir → Option Dir
    left_of n o = elim o [
      | none ↦ none
      | some d ↦ if is_mine me d then remove_dir w n d else some d
    ]

    mine-left_of : (n : LockName) (o : Option Dir) → mine me (left_of n o) ≡ false
    mine-left_of n none = refl
    mine-left_of n (some d) = elim (Bool-cases (is_mine me d)) [
      | inl own ↦ rw (own, removed n d) refl
      | inr other ↦ ap (mine me) (ap (λ b. if b then remove_dir w n d else some d) other) ∙ other
    ]

    Covers-drop : (n : LockName) (s : Locks) → Covers me s → Covers me (drop me w n s)
    unfolding drop
    Covers-drop n s covers m e = elim (Bool-cases (same_lock m n)) [
      | inl same ↦ absurd (
          ground (
            arith,
            e,
            mine-left_of n (s.dirs n),
            ap (mine me) (put-same n (left_of n (s.dirs n)) s.dirs),
            ap (λ k. mine me (put n (left_of n (s.dirs n)) s.dirs k)) (same_lock-eq m n same),
          ))
      | inr other ↦
          among-remove_held m n s.held other
            (covers m (ap (mine me) (sym (put-other m n (left_of n (s.dirs n)) s.dirs other)) ∙ e))
    ]

    Covers-either :
        (b : Bool) (x y : Locks) → Covers me x → Covers me y → Covers me (if b then x else y)
    Covers-either true x y hx hy = hx
    Covers-either false x y hx hy = hy

    Covers-release_names :
        (keep ns : List LockName) (s : Locks)
        → Covers me s
        → Covers me (release_names me w keep ns s)
    unfolding release_names
    Covers-release_names keep [] s covers = covers
    Covers-release_names keep (n ∷ ns) s covers =
        Covers-release_names keep ns _
          (Covers-either (among n keep) _ _ covers (Covers-drop n s covers))

    Covers-release :
        (keep : List LockName) (s : Locks) → Covers me s → Covers me (release me w keep s)
    unfolding release
    Covers-release keep s covers = Covers-release_names keep s.held s covers

    Gone-release :
        (keep : List LockName) (n : LockName) (s : Locks)
        → among n keep ≡ false
        → Covers me s
        → Gone n (release me w keep s)
    Gone-release keep n s loose covers =
        let free = release-loose me w keep n loose s in
        (free, not_held n (release me w keep s) (Covers-release keep s covers) free)

  -- The others take away what they find, or leave it, and write no directory in the holder's name.
  abbrev pub Apart : ((LockName → Option Dir) → LockName → Option Dir) → Type 0
  Apart others =
      (dirs : LockName → Option Dir) (n : LockName)
      → mine me (others dirs n) ≡ true
      → mine me (dirs n) ≡ true

  -- The worlds and the others of the rounds are such.
  unfoldable pub Tidy : List Turn → Type 0
  Tidy [] = Unit
  Tidy (t ∷ ts) = (Foreign me t.world × Removes t.world × Apart t.others) × Tidy ts

-- What the release after a round leaves. Where removals succeed and others write directories of
-- their own only, a process that had its token in no directory but those in `held` has, between
-- two rounds, nothing but box.lock.d in `held` and on disk, and that only if it is exclusive.
pub waits_with_box_at_most :
    (me : Me) (w : World) (s : Locks) (n : LockName)
    → Foreign me w
    → Removes w
    → Covers me s
    → among n (kept me.tier) ≡ false
    → Gone me n (release me w (kept me.tier) (round me w s).1)
waits_with_box_at_most me w s n foreign removes covers loose =
    Gone-release me w removes (kept me.tier) n (round me w s).1 loose
      (Covers-round me w foreign s covers)

-- All or nothing: where removals succeed and others write directories of their own only, an
-- `acquire` that fails, after however many rounds, of a process that had its token in no directory
-- but those in `held`, ends with nothing in `held`, and with no lock directory that has its token.
pub acquire_fails_clean :
    (me : Me) (ts : List Turn) (last : World) (s : Locks) (n : LockName)
    → Tidy me ts
    → Foreign me last
    → Removes last
    → Covers me s
    → (acquire me ts last s).0 ≡ false
    → Gone me n (acquire me ts last s).1
unfolding acquire Tidy
acquire_fails_clean me [] last s n tidy foreign removes covers h =
    elim (Bool-cases (round me last s).0) [
      | inl took ↦ absurd (ground (arith, h, took))
      | inr refused ↦ rw refused (
          Gone-release me last removes [] n (release me last (kept me.tier) (round me last s).1)
            (among-empty n)
            (Covers-release me last removes (kept me.tier) (round me last s).1
              (Covers-round me last foreign s covers)))
    ]
acquire_fails_clean me (t ∷ ts) last s n ((f, r, apart), tidy) foreign removes covers h =
    elim (Bool-cases (round me t.world s).0) [
      | inl took ↦ absurd (ground (arith, h, took))
      | inr refused ↦ rw refused (
          acquire_fails_clean me ts last _ n tidy foreign removes
            (λ m e.
              Covers-release me t.world r (kept me.tier) (round me t.world s).1
                (Covers-round me t.world f s covers) m (apart _ m e))
            (rw refused at h))
    ]
