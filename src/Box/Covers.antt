-- ===== src/Box/Covers.antt =====
-- A process has its token in no lock directory but those in `held`, also after a round
-- (vp/vp_box_lock.py, `_try_one`, `_round`).
use voice_pod_dispatcher.Prelude.{
  ◌≡◌, refl, ap, subst, ◌∙◌, sym, Bool, true, false, Option, none, some, List, [], ◌∷◌,
  if◌then◌else◌, arith, Bool-cases, Option-cases, inl, inr,
}
use voice_pod_dispatcher.Box.Locks.{
  Tier, exclusive, slot, LockName, box, slot_0, slot_1, portal, same_lock, among, Dir, Me, World,
  Locks, names_for, put, remove_dir, is_live, may_reap, is_mine, take, beaten_by, after_removal,
  try_dir, try_one, pending_dir, pending_by, box_pending,
}
use voice_pod_dispatcher.Box.Holders.{same_lock-eq, put-other, put-same}
use voice_pod_dispatcher.Box.Rounds.{take_all, take_slot, take_portal, slot_round, round_in, round}

module _ (me : Me) where
  -- Whether a directory stands there that has this holder's token.
  abbrev pub mine : Option Dir → Bool
  mine o = elim o [ none ↦ false | some d ↦ is_mine me d ]

  -- Every directory with the holder's token is in `held`.
  abbrev pub Covers : Locks → Type 0
  Covers s = (m : LockName) → mine (s.dirs m) ≡ true → among m s.held ≡ true

  -- Another process that comes first makes a directory of its own.
  abbrev pub Foreign : World → Type 0
  Foreign w = (n : LockName) → mine (w.beaten n) ≡ false

  Covers-put :
      (n : LockName) (o : Option Dir) (s : Locks)
      → (mine o ≡ true → among n s.held ≡ true)
      → Covers s
      → Covers (record s { dirs = put n o s.dirs })
  Covers-put n o s h covers m e = elim (Bool-cases (same_lock m n)) [
    | inl same ↦
        subst (λ k. among k s.held ≡ true) (sym (same_lock-eq m n same))
          (h (
            ap mine (sym (put-same n o s.dirs))
            ∙ ap (λ k. mine (put n o s.dirs k)) (sym (same_lock-eq m n same))
            ∙ e))
    | inr other ↦ covers m (ap mine (sym (put-other m n o s.dirs other)) ∙ e)
  ]

  mine-remove_dir :
      (w : World) (n : LockName) (d : Dir) → mine (remove_dir w n d) ≡ true → is_mine me d ≡ true
  unfolding remove_dir
  mine-remove_dir w n d e = elim (Option-cases d.owner) [
    | inl unknown ↦ absurd (ground (arith, rw unknown at e))
    | inr (o, owned) ↦ rw owned (ground (arith, rw owned at e))
  ]

  module _ (w : World) (foreign : Foreign w) where
    Covers-take : (n : LockName) (s : Locks) → Covers s → Covers (take me w n s)
    unfolding take among
    Covers-take n s covers m e = elim (Bool-cases (same_lock m n)) [
      | inl same ↦ rw same refl
      | inr other ↦ rw other (covers m (ap mine (sym (put-other m n _ s.dirs other)) ∙ e))
    ]

    Covers-beaten_by :
        (n : LockName) (o : Option Dir) (s : Locks)
        → mine o ≡ false
        → Covers s
        → Covers (beaten_by me w n o s).1
    unfolding beaten_by
    Covers-beaten_by n none s h covers = Covers-take n s covers
    Covers-beaten_by n (some d) s h covers =
        Covers-put n (some d) s (λ e. absurd (ground (arith, h, e))) covers

    Covers-after_removal :
        (n : LockName) (o : Option Dir) (s : Locks)
        → (mine o ≡ true → among n s.held ≡ true)
        → Covers s
        → Covers (after_removal me w n o s).1
    unfolding after_removal
    Covers-after_removal n none s h covers = Covers-beaten_by n (w.beaten n) s (foreign n) covers
    Covers-after_removal n (some d) s h covers = Covers-put n (some d) s h covers

    Covers-if :
        (b : Bool) (x y : Bool × Locks) → Covers x.1 → Covers y.1 → Covers (if b then x else y).1
    Covers-if true x y hx hy = hx
    Covers-if false x y hx hy = hy

    Covers-try_dir :
        (n : LockName) (o : Option Dir) (s : Locks)
        → s.dirs n ≡ o
        → Covers s
        → Covers (try_dir me w n o s).1
    unfolding try_dir
    Covers-try_dir n none s e covers = Covers-if (w.mkdir_ok n) _ _ (Covers-take n s covers) covers
    Covers-try_dir n (some d) s e covers = Covers-if (is_live w d.owner) _ _ covers (
        Covers-if (may_reap d) _ _
          (Covers-after_removal n (remove_dir w n d) (record s { reaped = n ∷ s.reaped })
            (λ left. covers n (ap mine e ∙ mine-remove_dir w n d left)) covers)
          covers)

    Covers-try_one : (n : LockName) (s : Locks) → Covers s → Covers (try_one me w n s).1
    unfolding try_one
    Covers-try_one n s covers = Covers-try_dir n (s.dirs n) s refl covers

    Covers-pending_by :
        (o : Option Dir) (s : Locks) → s.dirs box ≡ o → Covers s → Covers (pending_by me w o s).1
    unfolding pending_by pending_dir
    Covers-pending_by none s e covers = covers
    Covers-pending_by (some d) s e covers = Covers-if (is_live w d.owner) _ _ covers (
        Covers-if (may_reap d) _ _
          (Covers-put box (remove_dir w box d) (record s { reaped = box ∷ s.reaped })
            (λ left. covers box (ap mine e ∙ mine-remove_dir w box d left)) covers)
          covers)

    Covers-take_all : (ns : List LockName) (s : Locks) → Covers s → Covers (take_all me w ns s).1
    unfolding take_all
    Covers-take_all [] s covers = covers
    Covers-take_all (n ∷ ns) s covers =
        let covers₁ = Covers-try_one n s covers in
        Covers-if (among n s.held) _ _ (Covers-take_all ns s covers)
          (Covers-if (try_one me w n s).0 _ _ (Covers-take_all ns _ covers₁) covers₁)

    Covers-take_slot : (s : Locks) → Covers s → Covers (take_slot me w s).1
    unfolding take_slot
    Covers-take_slot s covers =
        let covers₁ = Covers-try_one slot_0 s covers in
        Covers-if (try_one me w slot_0 s).0 _ _ covers₁ (Covers-try_one slot_1 _ covers₁)

    Covers-take_portal : (s : Locks) → Covers s → Covers (take_portal me w s).1
    unfolding take_portal
    Covers-take_portal s covers = Covers-if me.is_portal _ _ (Covers-try_one portal s covers) covers

    Covers-slot_round : (s : Locks) → Covers s → Covers (slot_round me w s).1
    unfolding slot_round box_pending
    Covers-slot_round s covers =
        let s₁ : Locks = (pending_by me w (s.dirs box) s).1 in
        let covers₁ : Covers s₁ = Covers-pending_by (s.dirs box) s refl covers in
        let covers₂ = Covers-take_slot s₁ covers₁ in
        Covers-if (pending_by me w (s.dirs box) s).0 _ _ covers₁
          (Covers-if (take_slot me w s₁).0 _ _ (Covers-take_portal _ covers₂) covers₂)

    Covers-round_in : (t : Tier) (s : Locks) → Covers s → Covers (round_in me w t s).1
    unfolding round_in
    Covers-round_in exclusive s covers = Covers-take_all (names_for exclusive me.is_portal) s covers
    Covers-round_in slot s covers = Covers-slot_round s covers

    pub Covers-round : (s : Locks) → Covers s → Covers (round me w s).1
    unfolding round
    Covers-round s covers = Covers-round_in me.tier s covers
