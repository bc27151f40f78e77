-- ===== src/Box/Rounds.antt =====
-- vp/vp_box_lock.py: one attempt at all the locks that a holder needs, and the loop around it.
use voice_pod_dispatcher.Prelude.{Bool, true, false, Option, List, [], ◌∷◌, if◌then◌else◌}
use voice_pod_dispatcher.Box.Locks.{
  Tier, exclusive, slot, LockName, box, slot_0, slot_1, portal, among, Dir, Me, World, Locks,
  names_for, try_one, box_pending, release,
}

module _ (me : Me) (w : World) where
  -- The loop of an exclusive holder: the locks that it does not hold, until one is refused.
  unfoldable pub take_all : List LockName → Locks → Bool × Locks
  take_all [] s = (true, s)
  take_all (n ∷ ns) s =
      if among n s.held
      then take_all ns s
      else (let (ok, s₁) = try_one me w n s in if ok then take_all ns s₁ else (false, s₁))

  -- The first slot that is free.
  unfoldable pub take_slot : Locks → Bool × Locks
  take_slot s =
      let (ok, s₁) = try_one me w slot_0 s in if ok then (true, s₁) else try_one me w slot_1 s₁

  -- The names that are no slot: portal.lock.d, for a portal proof.
  unfoldable pub take_portal : Locks → Bool × Locks
  take_portal s = if me.is_portal then try_one me w portal s else (true, s)

  unfoldable pub slot_round : Locks → Bool × Locks
  slot_round s =
      let (pending, s₁) = box_pending me w s in
      if pending
      then (false, s₁)
      else (let (ok, s₂) = take_slot s₁ in if ok then take_portal s₂ else (false, s₂))

  unfoldable pub round_in : Tier → Locks → Bool × Locks
  unfolding names_for
  round_in exclusive s = take_all (names_for exclusive me.is_portal) s
  round_in slot s = slot_round s

  -- _round
  unfoldable pub round : Locks → Bool × Locks
  round s = round_in me.tier s

-- The rounds of `acquire`: the world of each round before the deadline and what the other processes
-- do to the directories in the five seconds after it, and the world of the round that the deadline
-- ends.
pub record Turn : Type 0 where
  pub world : World
  pub others : (LockName → Option Dir) → LockName → Option Dir

abbrev pub kept : Tier → List LockName
kept exclusive = box ∷ []
kept slot = []

unfoldable pub acquire : Me → List Turn → World → Locks → Bool × Locks
acquire me [] last s =
    let (ok, s₁) = round me last s in
    if ok then (true, s₁) else (false, release me last [] (release me last (kept me.tier) s₁))
acquire me (t ∷ ts) last s =
    let (ok, s₁) = round me t.world s in
    let left = release me t.world (kept me.tier) s₁ in
    let rest = acquire me ts last (record left { dirs = t.others left.dirs }) in
    if ok then (true, s₁) else rest
