-- ===== src/Box/Waiting.antt =====
-- What a release leaves in `held` (vp/vp_box_lock.py, `release`).
use voice_pod_dispatcher.Prelude.{
  ℕ, suc, ◌-◌, ◌≤◌, ◌≡◌, refl, ap, ◌∙◌, sym, true, false, List, [], ◌∷◌, if◌then◌else◌, arith,
}
use voice_pod_dispatcher.Box.Locks.{
  LockName, same_lock, among, Me, World, Locks, drop, remove_held, release_names, release,
}
use voice_pod_dispatcher.Box.Holders.{same_lock-eq}

-- How often a name is in the list.
unfoldable count : LockName → List LockName → ℕ
count n [] = 0
count n (m ∷ ms) = let rest = count n ms in if same_lock n m then suc rest else rest

-- A name equal to another is equal to what the other is equal to.
same_lock-swap : (m n k : LockName) → same_lock n k ≡ true → same_lock m n ≡ same_lock m k
same_lock-swap m n k h = ap (same_lock m) (same_lock-eq n k h)

same_lock-join :
    (m n k : LockName) → same_lock m n ≡ true → same_lock m k ≡ true → same_lock n k ≡ true
same_lock-join m n k h h' = ap (λ x. same_lock x k) (sym (same_lock-eq m n h)) ∙ h'

count-remove_held :
    (m n : LockName) (ns : List LockName)
    → count m (remove_held n ns) ≡ (if same_lock m n then count m ns - 1 else count m ns)
unfolding count remove_held
count-remove_held m n [] = ground arith
count-remove_held m n (k ∷ ns) =
    ground (arith, count-remove_held m n ns, same_lock-swap m n k, same_lock-join m n k)

among-count : (m : LockName) (ns : List LockName) → count m ns ≡ 0 → among m ns ≡ false
unfolding count among
among-count m [] h = refl
among-count m (n ∷ ns) h = ground (arith, h, among-count m ns)

among-same : (m n : LockName) (ns : List LockName) → same_lock m n ≡ true → among m ns ≡ among n ns
among-same m n ns h = ap (λ x. among x ns) (same_lock-eq m n h)

count-empty : (m : LockName) (s : Locks) → count m s.held ≤ count m [] → count m s.held ≡ 0
unfolding count
count-empty m s h = omega (arith, h)

pub among-empty : (m : LockName) → among m [] ≡ false
unfolding among
among-empty m = refl

module _ (me : Me) where
  module _ (w : World) (keep : List LockName) (m : LockName) (loose : among m keep ≡ false) where
    -- One step of the loop.
    dropped : LockName → Locks → Locks
    dropped n s = if among n keep then s else drop me w n s

    dropped-count :
        (n : LockName) (ns : List LockName) (s : Locks)
        → count m s.held ≤ count m (n ∷ ns)
        → count m (dropped n s).held ≤ count m ns
    unfolding dropped drop count
    dropped-count n ns s h =
        ground (arith, h, loose, among-same m n keep, count-remove_held m n s.held)

    release_names-count :
        (ns : List LockName) (s : Locks)
        → count m s.held ≤ count m ns
        → count m (release_names me w keep ns s).held ≡ 0
    unfolding release_names dropped
    release_names-count [] s h = count-empty m s h
    release_names-count (n ∷ ns) s h = release_names-count ns (dropped n s) (dropped-count n ns s h)

    pub release-loose : (s : Locks) → among m (release me w keep s).held ≡ false
    unfolding release
    release-loose s = among-count m _ (release_names-count s.held s (omega arith))
