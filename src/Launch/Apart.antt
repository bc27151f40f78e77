-- ===== src/Launch/Apart.antt =====
-- The paths that active claims own (ci/control/orchestration_control.py).
use voice_pod_dispatcher.Prelude.{
  String, eq_iff, ◌≡◌, refl, sym, subst, Bool, true, false, List, [], ◌∷◌, if◌then◌else◌, arith,
  inl, inr, Bool-cases, update_row, update_where,
}
use voice_pod_dispatcher.Launch.Check.{Check, ok, err, ◌>>=◌, ◌>>◌, refuse_if}
use voice_pod_dispatcher.Launch.Schema.{Claim, Control, Catalog}
use voice_pod_dispatcher.Launch.World.{World}
use voice_pod_dispatcher.Launch.Paths.{normalize_path, overlap, paths_conflict}
use voice_pod_dispatcher.Launch.Claiming.{
  conflicts_with, any_conflict, refuse_conflict, refuse_conflicts,
}
use voice_pod_dispatcher.Launch.Rows.{
  is_claim, put_claim, released, held_for, release_claim, release_all, edit_task,
}
use voice_pod_dispatcher.Launch.Work.{add_task}
use voice_pod_dispatcher.Launch.Migrations.{add_migration}
use voice_pod_dispatcher.Launch.Verify.{active_claims, clashes_of, claim_problems}
use voice_pod_dispatcher.Launch.Commands.{Command, history}
use voice_pod_dispatcher.Launch.Rule.{Rule}
use voice_pod_dispatcher.Launch.Preserve.{Keeps-history}

overlap-sym : (l r : String) → overlap l r ≡ false → overlap r l ≡ false
unfolding overlap
overlap-sym l r e = ground (arith, eq_iff l r, eq_iff r l)

swap :
    (m n : Check String)
    → (m >>= λ l. n >>= λ r. ok (overlap l r)) ≡ ok false
    → (n >>= λ r. m >>= λ l. ok (overlap r l)) ≡ ok false
swap (ok l) (ok r) e = rw (overlap-sym l r (ground arith)) refl
swap (ok l) (err f) e = absurd (ground arith)
swap (err f) n e = absurd (ground arith)

paths_conflict-sym : (a b : String) → paths_conflict a b ≡ ok false → paths_conflict b a ≡ ok false
unfolding paths_conflict
paths_conflict-sym a b e = swap (normalize_path a) (normalize_path b) e

-- One turn of a search that stops at the first conflict.
quiet :
    (m k : Check Bool)
    → (m >>= λ b. if b then ok true else k) ≡ ok false
    → (m ≡ ok false) × (k ≡ ok false)
quiet (ok true) k e = absurd (ground arith)
quiet (ok false) k e = (refl, e)
quiet (err f) k e = absurd (ground arith)

quiet_conv :
    (m k : Check Bool)
    → m ≡ ok false
    → k ≡ ok false
    → (m >>= λ b. if b then ok true else k) ≡ ok false
quiet_conv m k e f = rw e f

no_conflict : (bs : List String) → any_conflict bs [] ≡ ok false
unfolding any_conflict conflicts_with
no_conflict [] = refl
no_conflict (b ∷ bs) = no_conflict bs

one_more :
    (a : String) (as' bs : List String)
    → conflicts_with a bs ≡ ok false
    → any_conflict bs as' ≡ ok false
    → any_conflict bs (a ∷ as') ≡ ok false
unfolding any_conflict conflicts_with
one_more a as' [] e f = refl
one_more a as' (b ∷ bs) e f =
    let (here, rest) = quiet (paths_conflict a b) (conflicts_with a bs) e in
    let (here', rest') = quiet (conflicts_with b as') (any_conflict bs as') f in
    quiet_conv (conflicts_with b (a ∷ as')) (any_conflict bs (a ∷ as'))
      (quiet_conv (paths_conflict b a) (conflicts_with b as') (paths_conflict-sym a b here) here')
      (one_more a as' bs rest rest')

any_conflict-sym :
    (as' bs : List String) → any_conflict as' bs ≡ ok false → any_conflict bs as' ≡ ok false
unfolding any_conflict
any_conflict-sym [] bs e = no_conflict bs
any_conflict-sym (a ∷ as') bs e =
    let (here, rest) = quiet (conflicts_with a bs) (any_conflict as' bs) e in
    one_more a as' bs here (any_conflict-sym as' bs rest)

-- Two claims that are both active own no path in common.
abbrev pub Apart : Claim → Claim → Type 0
Apart k x = k.is_active ≡ true → x.is_active ≡ true → any_conflict k.paths x.paths ≡ ok false

abbrev pub ApartFrom : Claim → List Claim → Type 0
ApartFrom k [] = Unit
ApartFrom k (x ∷ xs) = Apart k x × ApartFrom k xs

abbrev pub AllApart : List Claim → Type 0
AllApart [] = Unit
AllApart (k ∷ ks) = ApartFrom k ks × AllApart ks

Apart-sym : (k x : Claim) → Apart k x → Apart x k
Apart-sym k x h a b = any_conflict-sym k.paths x.paths (h b a)

passed : (m : Check Bool) → (m >>= refuse_if) ≡ ok tt → m ≡ ok false
unfolding refuse_if
passed (ok true) e = absurd (ground arith)
passed (ok false) e = refl
passed (err f) e = absurd (ground arith)

Apart-of_passed : (k x : Claim) → refuse_conflict k.paths x ≡ ok tt → Apart k x
unfolding refuse_conflict
Apart-of_passed k x e a b = passed (any_conflict k.paths x.paths) (rw b at e)

then_rest : (m n : Check (Unit {0})) → (m >> n) ≡ ok tt → (m ≡ ok tt) × (n ≡ ok tt)
then_rest (ok tt) n e = (refl, e)
then_rest (err f) n e = absurd (ground arith)

ApartFrom-of_passed :
    (k : Claim) (ks : List Claim) → refuse_conflicts k.paths ks ≡ ok tt → ApartFrom k ks
unfolding refuse_conflicts
ApartFrom-of_passed k [] e = tt
ApartFrom-of_passed k (x ∷ xs) e =
    let (here, rest) = then_rest (refuse_conflict k.paths x) (refuse_conflicts k.paths xs) e in
    (Apart-of_passed k x here, ApartFrom-of_passed k xs rest)

ApartFrom-put :
    (k x : Claim) (xs : List Claim) → Apart x k → ApartFrom x xs → ApartFrom x (put_claim k xs)
unfolding put_claim
ApartFrom-put k x [] h hs = (h, tt)
ApartFrom-put k x (y ∷ ys) h (hy, hs) = elim (Bool-cases (is_claim k.claim_id y)) [
  | inl e ↦ rw e (h, hs)
  | inr e ↦ rw e (hy, ApartFrom-put k x ys h hs)
]

AllApart-put :
    (k : Claim) (xs : List Claim) → ApartFrom k xs → AllApart xs → AllApart (put_claim k xs)
unfolding put_claim
AllApart-put k [] h hs = (tt, tt)
AllApart-put k (y ∷ ys) (hy, h) (here, hs) = elim (Bool-cases (is_claim k.claim_id y)) [
  | inl e ↦ rw e (h, hs)
  | inr e ↦ rw e (ApartFrom-put k y ys (Apart-sym k y hy) here, AllApart-put k ys h hs)
]

ApartFrom-released : (k : Claim) (xs : List Claim) → ApartFrom (released k) xs
ApartFrom-released k [] = tt
ApartFrom-released k (x ∷ xs) = ((λ a b. absurd (ground arith)), ApartFrom-released k xs)

module _ (p : Claim → Bool) where
  ApartFrom-release :
      (k : Claim) (xs : List Claim) → ApartFrom k xs → ApartFrom k (update_row p released xs)
  unfolding update_row
  ApartFrom-release k [] h = tt
  ApartFrom-release k (x ∷ xs) (hx, h) = elim (Bool-cases (p x)) [
    | inl e ↦ rw e ((λ a b. absurd (ground arith)), h)
    | inr e ↦ rw e (hx, ApartFrom-release k xs h)
  ]

  AllApart-release : (xs : List Claim) → AllApart xs → AllApart (update_row p released xs)
  unfolding update_row
  AllApart-release [] h = tt
  AllApart-release (x ∷ xs) (hx, h) = elim (Bool-cases (p x)) [
    | inl e ↦ rw e (ApartFrom-released x xs, h)
    | inr e ↦ rw e (ApartFrom-release x xs hx, AllApart-release xs h)
  ]

  ApartFrom-release_where :
      (k : Claim) (xs : List Claim) → ApartFrom k xs → ApartFrom k (update_where p released xs)
  unfolding update_where
  ApartFrom-release_where k [] h = tt
  ApartFrom-release_where k (x ∷ xs) (hx, h) = elim (Bool-cases (p x)) [
    | inl e ↦ rw e ((λ a b. absurd (ground arith)), ApartFrom-release_where k xs h)
    | inr e ↦ rw e (hx, ApartFrom-release_where k xs h)
  ]

  AllApart-release_where : (xs : List Claim) → AllApart xs → AllApart (update_where p released xs)
  unfolding update_where
  AllApart-release_where [] h = tt
  AllApart-release_where (x ∷ xs) (hx, h) = elim (Bool-cases (p x)) [
    | inl e ↦ rw e (ApartFrom-released x _, AllApart-release_where xs h)
    | inr e ↦ rw e (ApartFrom-release_where x xs hx, AllApart-release_where xs h)
  ]

claims_rule : Rule (λ c. AllApart c.claims) (λ c. AllApart c.claims)
unfolding edit_task add_task release_claim release_all add_migration
claims_rule = record {
  weaken = λ c h. h;
  frame = λ c c' same h. subst AllApart (sym same.claims) h;
  refreshed = λ w cat c rows e h. h;
  edit = λ i f r c e change h. h;
  add = λ r c e e' e'' h. h;
  put = λ k c e h. AllApart-put k c.claims (ApartFrom-of_passed k c.claims e) h;
  release = λ i c h. AllApart-release (is_claim i) c.claims h;
  release_every = λ i c h. AllApart-release_where (held_for i) c.claims h;
  number = λ w n i c e h. h;
}

-- What `verify_state` compares.
clashes_of-active :
    (k : Claim) (ks : List Claim)
    → k.is_active ≡ true
    → ApartFrom k ks
    → clashes_of k (active_claims ks) ≡ ok []
unfolding clashes_of active_claims
clashes_of-active k [] a h = refl
clashes_of-active k (x ∷ xs) a (hx, h) = elim (Bool-cases x.is_active) [
  | inl e ↦ rw (e, hx a e, clashes_of-active k xs a h)
  | inr e ↦ rw e (clashes_of-active k xs a h)
]

claim_problems-active : (ks : List Claim) → AllApart ks → claim_problems (active_claims ks) ≡ ok []
unfolding claim_problems active_claims
claim_problems-active [] h = refl
claim_problems-active (k ∷ ks) (hk, h) = elim (Bool-cases k.is_active) [
  | inl e ↦ rw (e, clashes_of-active k ks e hk, claim_problems-active ks h)
  | inr e ↦ rw e (claim_problems-active ks h)
]

-- After any history of commands on a state whose active claims own no path in common, they still
-- own none in common, and the comparison of claims in `verify_state` ends with no error.
pub history-claim_problems :
    (steps : List (World × Catalog × Command)) (c : Control)
    → AllApart c.claims
    → AllApart (history steps c).claims
      × (claim_problems (active_claims (history steps c).claims) ≡ ok [])
history-claim_problems steps c h =
    let apart = Keeps-history claims_rule steps c h in
    (apart, claim_problems-active (history steps c).claims apart)
