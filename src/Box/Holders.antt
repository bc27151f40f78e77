-- ===== src/Box/Holders.antt =====
-- Who holds what after a round (vp/vp_box_lock.py, `_round` and `_try_one`).
use voice_pod_dispatcher.Prelude.{
  ◌⊎◌, ◌≡◌, refl, ap, ◌∙◌, true, false, Option, none, some, List, [], ◌∷◌, arith, Bool-cases,
  Option-cases, inl, inr,
}
use voice_pod_dispatcher.Box.Locks.{
  Tier, exclusive, slot, LockName, box, slot_0, slot_1, portal, same_lock, among, Dir, Me, World,
  Locks, names_for, is_live, put, remove_dir, my_dir, take, beaten_by, after_removal, try_dir,
  try_one, pending_dir, pending_by, box_pending,
}
use voice_pod_dispatcher.Box.Rounds.{take_all, take_slot, take_portal, slot_round, round_in, round}

pub same_lock_refl : (n : LockName) → same_lock n n ≡ true
unfolding same_lock
same_lock_refl n = ground arith

pub same_lock-eq : (m n : LockName) → same_lock m n ≡ true → m ≡ n
unfolding same_lock
same_lock-eq m n h = ground arith

pub put-other :
    (m n : LockName) (d : Option Dir) (dirs : LockName → Option Dir)
    → same_lock m n ≡ false
    → put n d dirs m ≡ dirs m
unfolding put
put-other m n d dirs h = rw h

pub put-same : (n : LockName) (d : Option Dir) (dirs : LockName → Option Dir) → put n d dirs n ≡ d
unfolding put
put-same n d dirs = rw (same_lock_refl n)

pub tier-cases : (t : Tier) → (t ≡ exclusive) ⊎ (t ≡ slot)
tier-cases exclusive = inl refl
tier-cases slot = inr refl

module _ (me : Me) (w : World) where
  after_removal-other :
      (m n : LockName) (left : Option Dir) (s : Locks)
      → same_lock m n ≡ false
      → (after_removal me w n left s).1.dirs m ≡ s.dirs m
  unfolding after_removal beaten_by take
  after_removal-other m n none s h = elim (Option-cases (w.beaten n)) [
    | inl alone ↦ rw alone (put-other m n _ _ h)
    | inr (d, beaten) ↦ rw beaten (put-other m n _ _ h)
  ]
  after_removal-other m n (some left) s h = put-other m n _ _ h

  try_dir-other :
      (m n : LockName) (o : Option Dir) (s : Locks)
      → same_lock m n ≡ false
      → (try_dir me w n o s).1.dirs m ≡ s.dirs m
  unfolding try_dir take
  try_dir-other m n none s h = ground (arith, put-other m n (some (my_dir me w)) s.dirs h)
  try_dir-other m n (some d) s h =
      ground
        (arith, after_removal-other m n (remove_dir w n d) (record s { reaped = n ∷ s.reaped }) h)

  -- An attempt at one lock leaves the other directories alone.
  pub try_one-other :
      (m n : LockName) (s : Locks) → same_lock m n ≡ false → (try_one me w n s).1.dirs m ≡ s.dirs m
  unfolding try_one
  try_one-other m n s h = try_dir-other m n (s.dirs n) s h

  try_dir-live :
      (n : LockName) (s : Locks) (d : Dir)
      → is_live w d.owner ≡ true
      → try_dir me w n (some d) s ≡ (false, s)
  unfolding try_dir
  try_dir-live n s d live = rw live

  try_one-live :
      (n : LockName) (s : Locks) (d : Dir)
      → s.dirs n ≡ some d
      → is_live w d.owner ≡ true
      → try_one me w n s ≡ (false, s)
  unfolding try_one
  try_one-live n s d found live = ap (λ o. try_dir me w n o s) found ∙ try_dir-live n s d live

  -- A process that runs keeps the lock `n`.
  abbrev pub Stays : LockName → Dir → Locks → Type 0
  Stays n d s = s.dirs n ≡ some d

  try_one-Stays :
      (m n : LockName) (s : Locks) (d : Dir)
      → is_live w d.owner ≡ true
      → Stays m d s
      → Stays m d (try_one me w n s).1
  try_one-Stays m n s d live h = elim (Bool-cases (same_lock m n)) [
    | inl same ↦ rw (try_one-live n s d (rw (same_lock-eq m n same) at h) live) h
    | inr other ↦ rw (try_one-other m n s other) h
  ]

  pending_by-other :
      (m : LockName) (o : Option Dir) (s : Locks)
      → same_lock m box ≡ false
      → (pending_by me w o s).1.dirs m ≡ s.dirs m
  unfolding pending_by pending_dir
  pending_by-other m none s h = refl
  pending_by-other m (some d) s h = ground (arith, put-other m box (remove_dir w box d) s.dirs h)

  pending_by-live :
      (s : Locks) (d : Dir) → is_live w d.owner ≡ true → pending_by me w (some d) s ≡ (true, s)
  unfolding pending_by
  pending_by-live s d live = rw live

  pub box_pending-live :
      (s : Locks) (d : Dir)
      → s.dirs box ≡ some d
      → is_live w d.owner ≡ true
      → box_pending me w s ≡ (true, s)
  unfolding box_pending
  box_pending-live s d found live = ap (λ o. pending_by me w o s) found ∙ pending_by-live s d live

  box_pending-Stays :
      (m : LockName) (s : Locks) (d : Dir)
      → is_live w d.owner ≡ true
      → Stays m d s
      → Stays m d (box_pending me w s).1
  unfolding box_pending
  box_pending-Stays m s d live h = elim (Bool-cases (same_lock m box)) [
    | inl same ↦ rw (box_pending-live s d (rw (same_lock-eq m box same) at h) live) h
    | inr other ↦ pending_by-other m (s.dirs box) s other ∙ h
  ]

  take_all-Stays :
      (m : LockName) (ns : List LockName) (s : Locks) (d : Dir)
      → is_live w d.owner ≡ true
      → Stays m d s
      → Stays m d (take_all me w ns s).1
  unfolding take_all
  take_all-Stays m [] s d live h = h
  take_all-Stays m (n ∷ ns) s d live h = ground (
    arith,
    try_one-Stays m n s d live h,
    take_all-Stays m ns s d live h,
    take_all-Stays m ns (try_one me w n s).1 d live,
  )

  take_slot-Stays :
      (m : LockName) (s : Locks) (d : Dir)
      → is_live w d.owner ≡ true
      → Stays m d s
      → Stays m d (take_slot me w s).1
  unfolding take_slot
  take_slot-Stays m s d live h =
      let first = try_one-Stays m slot_0 s d live h in
      ground (arith, first, try_one-Stays m slot_1 (try_one me w slot_0 s).1 d live first)

  take_portal-Stays :
      (m : LockName) (s : Locks) (d : Dir)
      → is_live w d.owner ≡ true
      → Stays m d s
      → Stays m d (take_portal me w s).1
  unfolding take_portal
  take_portal-Stays m s d live h = ground (arith, h, try_one-Stays m portal s d live h)

  slot_round-Stays :
      (m : LockName) (s : Locks) (d : Dir)
      → is_live w d.owner ≡ true
      → Stays m d s
      → Stays m d (slot_round me w s).1
  unfolding slot_round
  slot_round-Stays m s d live h =
      let s₁ : Locks = (box_pending me w s).1 in
      let pended = box_pending-Stays m s d live h in
      let slotted = take_slot-Stays m s₁ d live pended in
      ground (arith, pended, slotted, take_portal-Stays m (take_slot me w s₁).1 d live slotted)

  pub round-exclusive :
      (s : Locks)
      → me.tier ≡ exclusive
      → round me w s ≡ take_all me w (names_for exclusive me.is_portal) s
  unfolding round round_in
  round-exclusive s e = ap (λ t. round_in me w t s) e

  round-slot : (s : Locks) → me.tier ≡ slot → round me w s ≡ slot_round me w s
  unfolding round round_in
  round-slot s e = ap (λ t. round_in me w t s) e

  -- No round takes a lock from a process that runs: a directory whose owner is alive is there after
  -- the round as it was before, whoever makes the round, in either tier and whether it succeeds.
  pub round_keeps_live_holders :
      (m : LockName) (s : Locks) (d : Dir)
      → s.dirs m ≡ some d
      → is_live w d.owner ≡ true
      → (round me w s).1.dirs m ≡ some d
  round_keeps_live_holders m s d found live = elim (tier-cases me.tier) [
    | inl e ↦ rw (round-exclusive s e) (take_all-Stays m _ s d live found)
    | inr e ↦ rw (round-slot s e) (slot_round-Stays m s d live found)
  ]

  slot_round-pending : (s : Locks) → box_pending me w s ≡ (true, s) → slot_round me w s ≡ (false, s)
  unfolding slot_round
  slot_round-pending s pending = rw pending

  take_all-refused :
      (n : LockName) (ns : List LockName) (s : Locks)
      → among n s.held ≡ false
      → try_one me w n s ≡ (false, s)
      → take_all me w (n ∷ ns) s ≡ (false, s)
  unfolding take_all
  take_all-refused n ns s free refused = rw free (rw refused)

  -- Exclusion: while box.lock.d has a live owner, a round of a process that does not hold it fails,
  -- in either tier, and changes nothing.
  pub box_excludes :
      (s : Locks) (d : Dir)
      → s.dirs box ≡ some d
      → is_live w d.owner ≡ true
      → among box s.held ≡ false
      → round me w s ≡ (false, s)
  unfolding names_for
  box_excludes s d found live free = elim (tier-cases me.tier) [
    | inl e ↦ round-exclusive s e ∙ take_all-refused box _ s free (try_one-live box s d found live)
    | inr e ↦ round-slot s e ∙ slot_round-pending s (box_pending-live s d found live)
  ]
