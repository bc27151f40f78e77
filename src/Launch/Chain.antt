-- ===== src/Launch/Chain.antt =====
-- The search for a reviewer's ancestors, and its fuel (ci/control/review_gate.py).
use voice_pod_dispatcher.Prelude.{
  ℕ, zero, suc, ◌+◌, ◌*◌, ◌≤◌, ◌<◌, String, eq_iff, eq_refl, ◌≡◌, refl, ◌∙◌, subst, true, false,
  Option, none, some, List, [], ◌∷◌, ◌++◌, inl, inr, if◌then◌else◌, arith, Bool-cases, Option-cases,
  is_among, length,
}
use voice_pod_dispatcher.Launch.World.{SessionMeta}
use voice_pod_dispatcher.Launch.Sessions.{
  optional, is_meta, meta_of, parents, parents_of, climb, chain_fuel, chain_bound, reviewer_chain,
}

-- Every parent that a row names.
named : List SessionMeta → List String
named [] = []
named (m ∷ ms) = parents m ++ named ms

-- How many of the names are not in the chain.
missing : (names chain : List String) → ℕ
missing [] chain = 0
missing (n ∷ ns) chain = if is_among n chain then missing ns chain else suc (missing ns chain)

missing-cons-le : (ns chain : List String) (p : String) → missing ns (p ∷ chain) ≤ missing ns chain
unfolding missing
missing-cons-le [] chain p = omega arith
missing-cons-le (n ∷ ns) chain p = ground (arith, missing-cons-le ns chain p)

missing-cons-lt :
    (ns chain : List String) (p : String)
    → is_among p ns ≡ true
    → is_among p chain ≡ false
    → missing ns (p ∷ chain) < missing ns chain
unfolding missing
missing-cons-lt [] chain p e out = absurd (ground arith)
missing-cons-lt (n ∷ ns) chain p e out =
    ground (arith, eq_iff p n, eq_iff n p, missing-cons-le ns chain p, missing-cons-lt ns chain p)

unfoldable pub AllAmong : (ps ns : List String) → Type 0
AllAmong [] ns = Unit
AllAmong (p ∷ ps) ns = (is_among p ns ≡ true) × AllAmong ps ns

-- What goes onto the stack leaves the missing names.
climb-le :
    (ns ps stack chain : List String)
    → AllAmong ps ns
    → length (climb ps stack chain).0 + missing ns (climb ps stack chain).1
      ≤ length stack + missing ns chain
unfolding climb AllAmong
climb-le ns [] stack chain h = omega arith
climb-le ns (p ∷ ps) stack chain (hp, h) = elim (Bool-cases (is_among p chain)) [
  | inl e ↦ rw e (climb-le ns ps stack chain h)
  | inr e ↦
      rw e
        (omega (arith, climb-le ns ps (p ∷ stack) (p ∷ chain) h, missing-cons-lt ns chain p hp e))
]

is_among-append_right :
    (p : String) (xs ns : List String) → is_among p ns ≡ true → is_among p (xs ++ ns) ≡ true
is_among-append_right p [] ns e = e
is_among-append_right p (x ∷ xs) ns e = ground (arith, is_among-append_right p xs ns e)

AllAmong-cons : (ps ns : List String) (x : String) → AllAmong ps ns → AllAmong ps (x ∷ ns)
unfolding AllAmong
AllAmong-cons [] ns x h = tt
AllAmong-cons (p ∷ ps) ns x (hp, h) = (ground arith, AllAmong-cons ps ns x h)

AllAmong-append_right : (ps xs ns : List String) → AllAmong ps ns → AllAmong ps (xs ++ ns)
unfolding AllAmong
AllAmong-append_right [] xs ns h = tt
AllAmong-append_right (p ∷ ps) xs ns (hp, h) =
    (is_among-append_right p xs ns hp, AllAmong-append_right ps xs ns h)

AllAmong-append_self : (ps ns : List String) → AllAmong ps (ps ++ ns)
unfolding AllAmong
AllAmong-append_self [] ns = tt
AllAmong-append_self (p ∷ ps) ns =
    (rw (eq_refl p) refl, AllAmong-cons ps (ps ++ ns) p (AllAmong-append_self ps ns))

AllAmong-meta_of :
    (s : String) (ms : List SessionMeta) (m : SessionMeta)
    → meta_of s ms ≡ some m
    → AllAmong (parents m) (named ms)
unfolding meta_of named
AllAmong-meta_of s [] m e = absurd (ground arith)
AllAmong-meta_of s (x ∷ ms) m e = elim (Option-cases (meta_of s ms)) [
  | inr (later, found) ↦
      AllAmong-append_right (parents m) (parents x) (named ms)
        (AllAmong-meta_of s ms m (found ∙ rw found at e))
  | inl none_left ↦ elim (Bool-cases (is_meta s x)) [
    | inl h ↦
        subst (λ y. AllAmong (parents y) (parents x ++ named ms))
          (same_row (rw h at (rw none_left at e))) (AllAmong-append_self (parents x) (named ms))
    | inr h ↦ absurd (none≢some (rw h at (rw none_left at e)))
  ]
]
  where
    same_row : {x y : SessionMeta} → some x ≡ some y → x ≡ y
    same_row q = cc

    none≢some : {y : SessionMeta} → none ≡ some y → ⊥
    none≢some q = cc

AllAmong-of_meta :
    (o : Option SessionMeta) (ns : List String)
    → ((m : SessionMeta) → o ≡ some m → AllAmong (parents m) ns)
    → AllAmong (elim o [ none ↦ [] | some m ↦ parents m ]) ns
unfolding AllAmong
AllAmong-of_meta none ns h = tt
AllAmong-of_meta (some m) ns h = h m refl

AllAmong-parents_of : (ms : List SessionMeta) (s : String) → AllAmong (parents_of ms s) (named ms)
AllAmong-parents_of ms s = AllAmong-of_meta (meta_of s ms) (named ms) (AllAmong-meta_of s ms)

chain_fuel-total :
    (f : ℕ) (ms : List SessionMeta) (stack chain : List String)
    → length stack + missing (named ms) chain < f
    → (r : List String) × (chain_fuel f ms stack chain ≡ some r)
unfolding chain_fuel
chain_fuel-total zero ms stack chain h = absurd (omega arith)
chain_fuel-total (suc f) ms [] chain h = (chain, refl)
chain_fuel-total (suc f) ms (s ∷ stack) chain h =
    chain_fuel-total f ms (climb (parents_of ms s) stack chain).0
      (climb (parents_of ms s) stack chain).1
      (omega
        (arith, h, climb-le (named ms) (parents_of ms s) stack chain (AllAmong-parents_of ms s)))

missing-le-length : (ns chain : List String) → missing ns chain ≤ length ns
unfolding missing
missing-le-length [] chain = omega arith
missing-le-length (n ∷ ns) chain = ground (arith, missing-le-length ns chain)

length-append : (xs ys : List String) → length (xs ++ ys) ≡ length xs + length ys
length-append [] ys = omega arith
length-append (x ∷ xs) ys = omega (arith, length-append xs ys)

length-optional : (o : Option String) → length (optional o) ≤ 1
length-optional none = omega arith
length-optional (some s) = omega arith

length-named : (ms : List SessionMeta) → length (named ms) ≤ 2 * length ms
unfolding named
length-named [] = omega arith
length-named (m ∷ ms) = omega (
  arith,
  length-named ms,
  length-append (parents m) (named ms),
  length-append (optional m.parent_thread_id) (optional m.forked_from_id),
  length-optional m.parent_thread_id,
  length-optional m.forked_from_id,
)

pub reviewer_chain-total :
    (ms : List SessionMeta) (reviewer : String)
    → (chain : List String) × (reviewer_chain ms reviewer ≡ some chain)
unfolding reviewer_chain
reviewer_chain-total ms reviewer =
    chain_fuel-total (chain_bound ms) ms (reviewer ∷ []) (reviewer ∷ [])
      (omega (arith, missing-le-length (named ms) (reviewer ∷ []), length-named ms))
