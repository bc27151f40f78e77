-- ===== src/Box/Taking.antt =====
-- What a round that succeeds has taken (vp/vp_box_lock.py, `_try_one` and `_round`).
use voice_pod_dispatcher.Prelude.{
  ◌≡◌, refl, ap, ◌∙◌, sym, ◌⊎◌, Bool, true, false, Option, none, some, List, [], ◌∷◌, if◌then◌else◌,
  arith, Bool-cases, inl, inr,
}
use voice_pod_dispatcher.Box.Locks.{
  exclusive, LockName, same_lock, among, Dir, Me, World, Locks, names_for, my_dir, take, beaten_by,
  after_removal, remove_dir, is_live, may_reap, try_dir, try_one,
}
use voice_pod_dispatcher.Box.Holders.{
  same_lock_refl, same_lock-eq, put-same, try_one-other, round-exclusive,
}
use voice_pod_dispatcher.Box.Rounds.{take_all, round}

among-cons :
    (m n : LockName) (ns : List LockName)
    → among m (n ∷ ns) ≡ true
    → (same_lock m n ≡ true) ⊎ (among m ns ≡ true)
unfolding among
among-cons m n ns h = elim (Bool-cases (same_lock m n)) [
  | inl same ↦ inl same
  | inr other ↦ inr (ground (arith, h, other))
]

among-head : (n : LockName) (s t : Locks) → t.held ≡ n ∷ s.held → among n t.held ≡ true
unfolding among
among-head n s t h = ap (among n) h ∙ rw (same_lock_refl n) refl

among-more :
    (m n : LockName) (s t : Locks)
    → t.held ≡ n ∷ s.held
    → among m s.held ≡ true
    → among m t.held ≡ true
unfolding among
among-more m n s t h e = ap (among m) h ∙ ground (arith, e)

among-nothing : {A : Type 0} (n : LockName) → among n [] ≡ true → A
unfolding among
among-nothing n e = absurd (false≢true e)
  where
    false≢true : false ≡ true → ⊥
    false≢true p = cc

among-names_for : (n : LockName) (b : Bool) → among n (names_for exclusive b) ≡ true
unfolding among names_for same_lock
among-names_for n b = ground arith

module _ (me : Me) (w : World) where
  -- What an attempt at a lock ends with: the lock, or the same `held`.
  record Taken (n : LockName) (s : Locks) (r : Bool × Locks) : Type 0 where
    got : r.0 ≡ true → (r.1.dirs n ≡ some (my_dir me w)) × (r.1.held ≡ n ∷ s.held)
    not_got : r.0 ≡ false → r.1.held ≡ s.held

  Taken-take :
      (n : LockName) (s : Locks) (t : Locks) → t.held ≡ s.held → Taken n s (true, take me w n t)
  unfolding take
  Taken-take n s t h = record {
    got = λ e. (put-same n _ t.dirs, ap (λ x. n ∷ x) h);
    not_got = λ e. cc;
  }

  Taken-refused : (n : LockName) (s : Locks) (t : Locks) → t.held ≡ s.held → Taken n s (false, t)
  Taken-refused n s t h = record { got = λ e. cc; not_got = λ e. h }

  Taken-beaten_by :
      (n : LockName) (s t : Locks) (o : Option Dir)
      → t.held ≡ s.held
      → Taken n s (beaten_by me w n o t)
  unfolding beaten_by
  Taken-beaten_by n s t none h = Taken-take n s t h
  Taken-beaten_by n s t (some d) h = Taken-refused n s _ h

  Taken-after_removal :
      (n : LockName) (s t : Locks) (o : Option Dir)
      → t.held ≡ s.held
      → Taken n s (after_removal me w n o t)
  unfolding after_removal
  Taken-after_removal n s t none h = Taken-beaten_by n s t (w.beaten n) h
  Taken-after_removal n s t (some d) h = Taken-refused n s _ h

  Taken-if :
      (n : LockName) (s : Locks) (b : Bool) (x y : Bool × Locks)
      → Taken n s x
      → Taken n s y
      → Taken n s (if b then x else y)
  Taken-if n s true x y hx hy = hx
  Taken-if n s false x y hx hy = hy

  Taken-try_dir : (n : LockName) (o : Option Dir) (s : Locks) → Taken n s (try_dir me w n o s)
  unfolding try_dir
  Taken-try_dir n none s = Taken-if n s _ _ _ (Taken-take n s s refl) (Taken-refused n s s refl)
  Taken-try_dir n (some d) s = Taken-if n s (is_live w d.owner) _ _ (Taken-refused n s s refl) (
      Taken-if n s (may_reap d) _ _
        (Taken-after_removal n s (record s { reaped = n ∷ s.reaped }) (remove_dir w n d) refl)
        (Taken-refused n s s refl))

  Taken-try_one : (n : LockName) (s : Locks) → Taken n s (try_one me w n s)
  unfolding try_one
  Taken-try_one n s = Taken-try_dir n (s.dirs n) s

  -- What `held` names is on disk with the holder's own owner.json.
  abbrev pub HeldIsMine : Locks → Type 0
  HeldIsMine s = (n : LockName) → among n s.held ≡ true → s.dirs n ≡ some (my_dir me w)

  HeldIsMine-try_one :
      (n : LockName) (s : Locks)
      → among n s.held ≡ false
      → HeldIsMine s
      → HeldIsMine (try_one me w n s).1
  unfolding among
  HeldIsMine-try_one n s free h m found =
      let t = Taken-try_one n s in
      elim (Bool-cases (try_one me w n s).0) [
        | inl ok ↦ elim (Bool-cases (same_lock m n)) [
          | inl same ↦ rw (same_lock-eq m n same) ((t.got ok).0)
          | inr other ↦
              try_one-other me w m n s other
              ∙ h m (ground (arith, ap (among m) (t.got ok).1, found, other))
        ]
        | inr failed ↦ elim (Bool-cases (same_lock m n)) [
          | inl same ↦ ground (
            arith,
            ap (among m) (t.not_got failed),
            found,
            free,
            ap (λ x. among x s.held) (same_lock-eq m n same),
          )
          | inr other ↦
              try_one-other me w m n s other
              ∙ h m (ground (arith, ap (among m) (t.not_got failed), found))
        ]
      ]

  -- The loop of an exclusive holder keeps what it has, and ends well with every name.
  record AllTaken (ns : List LockName) (s : Locks) (r : Bool × Locks) : Type 0 where
    mine : HeldIsMine r.1
    grows : (n : LockName) → among n s.held ≡ true → among n r.1.held ≡ true
    all : r.0 ≡ true → (n : LockName) → among n ns ≡ true → among n r.1.held ≡ true

  AllTaken-first :
      (n : LockName) (ns : List LockName) (s t : Locks) (r : Bool × Locks)
      → ((m : LockName) → among m s.held ≡ true → among m t.held ≡ true)
      → among n t.held ≡ true
      → AllTaken ns t r
      → AllTaken (n ∷ ns) s r
  AllTaken-first n ns s t r more has a = record {
    mine = a.mine;
    grows = λ m e. a.grows m (more m e);
    all = λ ok m e. elim (among-cons m n ns e) [
      | inl same ↦ a.grows m (ap (λ x. among x t.held) (same_lock-eq m n same) ∙ has)
      | inr later ↦ a.all ok m later
    ];
  }

  AllTaken-if :
      (ns : List LockName) (s : Locks) (b : Bool) (x y : Bool × Locks)
      → (b ≡ true → AllTaken ns s x)
      → (b ≡ false → AllTaken ns s y)
      → AllTaken ns s (if b then x else y)
  AllTaken-if ns s true x y hx hy = hx refl
  AllTaken-if ns s false x y hx hy = hy refl

  AllTaken-take_all :
      (ns : List LockName) (s : Locks) → HeldIsMine s → AllTaken ns s (take_all me w ns s)
  unfolding take_all
  AllTaken-take_all [] s h = record {
    mine = h;
    grows = λ n e. e;
    all = λ ok n e. among-nothing n e;
  }
  AllTaken-take_all (n ∷ ns) s h =
      let s₁ : Locks = (try_one me w n s).1 in
      let t = Taken-try_one n s in
      AllTaken-if (n ∷ ns) s (among n s.held) _ _
        (λ has. AllTaken-first n ns s s _ (λ m e. e) has (AllTaken-take_all ns s h))
        λ free.
          let mine = HeldIsMine-try_one n s free h in
          AllTaken-if (n ∷ ns) s (try_one me w n s).0 _ _
            (λ ok.
              AllTaken-first n ns s s₁ _ (λ m e. among-more m n s s₁ ((t.got ok).1) e)
                (among-head n s s₁ (t.got ok).1) (AllTaken-take_all ns s₁ mine))
            λ failed. record {
              mine = mine;
              grows = λ m e. ap (among m) (t.not_got failed) ∙ e;
              all = λ ok. cc;
            }

  -- An exclusive holder whose round succeeds has every lock of the box: box.lock.d, both slots and
  -- portal.lock.d are its own directories, if those were that it held before the round.
  pub exclusive_round_takes_all :
      (s : Locks) (n : LockName)
      → me.tier ≡ exclusive
      → ((m : LockName) → among m s.held ≡ true → s.dirs m ≡ some (my_dir me w))
      → (round me w s).0 ≡ true
      → (round me w s).1.dirs n ≡ some (my_dir me w)
  exclusive_round_takes_all s n e h ok =
      let a = AllTaken-take_all (names_for exclusive me.is_portal) s h in
      let same = round-exclusive me w s e in
      ap (λ r. r.1.dirs n) same
      ∙ a.mine n (a.all (sym (ap (λ r. r.0) same) ∙ ok) n (among-names_for n me.is_portal))
