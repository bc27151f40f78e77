-- ===== src/Launch/Ancestors.antt =====
-- What the search for a reviewer's ancestors finds (ci/control/review_gate.py, `_reviewer_chain`).
use voice_pod_dispatcher.Prelude.{
  ℕ, zero, suc, String, str_eq, eq_iff, eq_refl, ◌≡◌, refl, sym, subst, ap, Bool, true, false, ◌||◌,
  some, List, [], ◌∷◌, ◌⊎◌, inl, inr, arith, Bool-cases, is_among,
}
use voice_pod_dispatcher.Launch.World.{SessionMeta}
use voice_pod_dispatcher.Launch.Sessions.{
  parents_of, climb, chain_fuel, chain_bound, reviewer_chain,
}
use voice_pod_dispatcher.Launch.Chain.{AllAmong, reviewer_chain-total}

-- The sessions that a session was forked from, one after the other, and it itself.
pub data Ancestor (ms : List SessionMeta) (s : String) : String → Type 0 where
  itself : Ancestor ms s s
  parent_of :
      {t p : String} → Ancestor ms s t → is_among p (parents_of ms t) ≡ true → Ancestor ms s p

either : (a b : Bool) → a || b ≡ true → (a ≡ true) ⊎ (b ≡ true)
either true b e = inl refl
either false b e = inr e

among_head : (s x : String) (xs : List String) → s ≡ x → is_among s (x ∷ xs) ≡ true
among_head s x xs e =
    subst (λ y. is_among s (y ∷ xs) ≡ true) e (ap (λ b. b || is_among s xs) (eq_refl s))

among_tail : (s x : String) (xs : List String) → is_among s xs ≡ true → is_among s (x ∷ xs) ≡ true
among_tail s x xs e = ground arith

among_cases :
    (s x : String) (xs : List String)
    → is_among s (x ∷ xs) ≡ true
    → (s ≡ x) ⊎ (is_among s xs ≡ true)
among_cases s x xs e = elim (either (str_eq s x) (is_among s xs) e) [
  | inl h ↦ inl (ground (arith, eq_iff s x))
  | inr h ↦ inr h
]

module _ (s : String) where
  chain-climb :
      (ps stack chain : List String)
      → is_among s chain ≡ true
      → is_among s (climb ps stack chain).1 ≡ true
  unfolding climb
  chain-climb [] stack chain e = e
  chain-climb (p ∷ ps) stack chain e = elim (Bool-cases (is_among p chain)) [
    | inl h ↦ rw h (chain-climb ps stack chain e)
    | inr h ↦ rw h (chain-climb ps (p ∷ stack) (p ∷ chain) (among_tail s p chain e))
  ]

  stack-climb :
      (ps stack chain : List String)
      → is_among s stack ≡ true
      → is_among s (climb ps stack chain).0 ≡ true
  unfolding climb
  stack-climb [] stack chain e = e
  stack-climb (p ∷ ps) stack chain e = elim (Bool-cases (is_among p chain)) [
    | inl h ↦ rw h (stack-climb ps stack chain e)
    | inr h ↦ rw h (stack-climb ps (p ∷ stack) (p ∷ chain) (among_tail s p stack e))
  ]

  -- What is new in the chain is on the stack too, and is one of the parents.
  new-climb :
      (ps stack chain : List String)
      → is_among s (climb ps stack chain).1 ≡ true
      → (is_among s chain ≡ true)
        ⊎ ((is_among s (climb ps stack chain).0 ≡ true) × (is_among s ps ≡ true))
  unfolding climb
  new-climb [] stack chain e = inl e
  new-climb (p ∷ ps) stack chain e = elim (Bool-cases (is_among p chain)) [
    | inl h ↦ rw h (elim (new-climb ps stack chain (rw h at e)) [
      | inl old ↦ inl old
      | inr (on_stack, new) ↦ inr (on_stack, among_tail s p ps new)
    ])
    | inr h ↦ rw h (elim (new-climb ps (p ∷ stack) (p ∷ chain) (rw h at e)) [
      | inl old ↦ elim (among_cases s p chain old) [
        | inl same ↦ inr (
          stack-climb ps (p ∷ stack) (p ∷ chain) (among_head s p stack same),
          among_head s p ps same,
        )
        | inr older ↦ inl older
      ]
      | inr (on_stack, new) ↦ inr (on_stack, among_tail s p ps new)
    ])
  ]

  stacked-climb :
      (ps stack chain : List String)
      → is_among s (climb ps stack chain).0 ≡ true
      → (is_among s stack ≡ true) ⊎ (is_among s ps ≡ true)
  unfolding climb
  stacked-climb [] stack chain e = inl e
  stacked-climb (p ∷ ps) stack chain e = elim (Bool-cases (is_among p chain)) [
    | inl h ↦ elim (stacked-climb ps stack chain (rw h at e)) [
      | inl old ↦ inl old
      | inr new ↦ inr (among_tail s p ps new)
    ]
    | inr h ↦ elim (stacked-climb ps (p ∷ stack) (p ∷ chain) (rw h at e)) [
      | inl old ↦ elim (among_cases s p stack old) [
        | inl same ↦ inr (among_head s p ps same)
        | inr older ↦ inl older
      ]
      | inr new ↦ inr (among_tail s p ps new)
    ]
  ]

AllAmong-climb : (ps stack chain : List String) → AllAmong ps (climb ps stack chain).1
unfolding climb AllAmong
AllAmong-climb [] stack chain = tt
AllAmong-climb (p ∷ ps) stack chain = elim (Bool-cases (is_among p chain)) [
  | inl h ↦ rw h (chain-climb p ps stack chain h, AllAmong-climb ps stack chain)
  | inr h ↦ rw h (
    chain-climb p ps (p ∷ stack) (p ∷ chain) (among_head p p chain refl),
    AllAmong-climb ps (p ∷ stack) (p ∷ chain),
  )
]

AllAmong-mono :
    (ps xs ys : List String)
    → ((s : String) → is_among s xs ≡ true → is_among s ys ≡ true)
    → AllAmong ps xs
    → AllAmong ps ys
unfolding AllAmong
AllAmong-mono [] xs ys f h = tt
AllAmong-mono (p ∷ ps) xs ys f (hp, h) = (f p hp, AllAmong-mono ps xs ys f h)

-- The chain has the reviewer, the parents of each session in it, and nothing but ancestors.
pub record IsChain (ms : List SessionMeta) (reviewer : String) (chain : List String) : Type 0 where
  pub has_reviewer : is_among reviewer chain ≡ true
  pub has_parents : (s : String) → is_among s chain ≡ true → AllAmong (parents_of ms s) chain
  pub only_ancestors : (s : String) → is_among s chain ≡ true → Ancestor ms reviewer s

record Searching (ms : List SessionMeta) (reviewer : String) (stack chain : List String)
    : Type 0 where
  has_reviewer : is_among reviewer chain ≡ true
  is_done :
      (s : String)
      → is_among s chain ≡ true
      → (is_among s stack ≡ true) ⊎ AllAmong (parents_of ms s) chain
  chain_from : (s : String) → is_among s chain ≡ true → Ancestor ms reviewer s
  stack_from : (s : String) → is_among s stack ≡ true → Ancestor ms reviewer s

module _ (ms : List SessionMeta) (reviewer t : String) (stack chain : List String)
    (before : Searching ms reviewer (t ∷ stack) chain) where
  from_t : Ancestor ms reviewer t
  from_t = before.stack_from t (among_head t t stack refl)

  is_done-climb :
      (s : String)
      → is_among s (climb (parents_of ms t) stack chain).1 ≡ true
      → (is_among s (climb (parents_of ms t) stack chain).0 ≡ true)
        ⊎ AllAmong (parents_of ms s) (climb (parents_of ms t) stack chain).1
  is_done-climb s e =
      let grows = λ (x : String). chain-climb x (parents_of ms t) stack chain in
      elim (new-climb s (parents_of ms t) stack chain e) [
        | inr (on_stack, _) ↦ inl on_stack
        | inl old ↦ elim (before.is_done s old) [
          | inr met ↦ inr (AllAmong-mono (parents_of ms s) chain _ grows met)
          | inl waits ↦ elim (among_cases s t stack waits) [
            | inl same ↦ inr (
                subst (λ x. AllAmong (parents_of ms x) (climb (parents_of ms t) stack chain).1)
                  (sym same) (AllAmong-climb (parents_of ms t) stack chain))
            | inr rest ↦ inl (stack-climb s (parents_of ms t) stack chain rest)
          ]
        ]
      ]

  Searching-climb :
      Searching ms reviewer
        (climb (parents_of ms t) stack chain).0
        (climb (parents_of ms t) stack chain).1
  Searching-climb = record {
    has_reviewer = chain-climb reviewer (parents_of ms t) stack chain before.has_reviewer;
    is_done = is_done-climb;
    chain_from = λ s e. elim (new-climb s (parents_of ms t) stack chain e) [
      | inl old ↦ before.chain_from s old
      | inr (_, new) ↦ parent_of from_t new
    ];
    stack_from = λ s e. elim (stacked-climb s (parents_of ms t) stack chain e) [
      | inl old ↦ before.stack_from s (among_tail s t stack old)
      | inr new ↦ parent_of from_t new
    ];
  }

IsChain-chain_fuel :
    (f : ℕ) (ms : List SessionMeta) (reviewer : String) (stack chain result : List String)
    → chain_fuel f ms stack chain ≡ some result
    → Searching ms reviewer stack chain
    → IsChain ms reviewer result
unfolding chain_fuel
IsChain-chain_fuel zero ms reviewer stack chain result e h = absurd (ground arith)
IsChain-chain_fuel (suc f) ms reviewer [] chain result e h =
    subst (IsChain ms reviewer) (same_chain e) (record {
      has_reviewer = h.has_reviewer;
      has_parents =
          λ s among. elim (h.is_done s among) [ inl waits ↦ absurd (ground arith) | inr met ↦ met ];
      only_ancestors = h.chain_from;
    })
  where
    same_chain : {xs ys : List String} → some xs ≡ some ys → xs ≡ ys
    same_chain q = cc
IsChain-chain_fuel (suc f) ms reviewer (t ∷ stack) chain result e h =
    IsChain-chain_fuel f ms reviewer (climb (parents_of ms t) stack chain).0
      (climb (parents_of ms t) stack chain).1 result e (Searching-climb ms reviewer t stack chain h)

-- The search for the ancestors of a reviewer ends, also where the rows of the log name each other in
-- a circle, with a chain that has the reviewer and the parents of each session in it, and that has
-- nothing but the reviewer and the sessions that it was forked from, directly or not.
pub reviewer_chain-IsChain :
    (ms : List SessionMeta) (reviewer : String)
    → (chain : List String) × (reviewer_chain ms reviewer ≡ some chain) × IsChain ms reviewer chain
unfolding reviewer_chain
reviewer_chain-IsChain ms reviewer =
    let (chain, ends) = reviewer_chain-total ms reviewer in
    (
      chain,
      ends,
      IsChain-chain_fuel (chain_bound ms) ms reviewer (reviewer ∷ []) (reviewer ∷ []) chain ends
          (record {
            has_reviewer = among_head reviewer reviewer [] refl;
            is_done = λ s e. inl e;
            chain_from = from_start;
            stack_from = from_start;
          }),
    )
  where
    from_start : (s : String) → is_among s (reviewer ∷ []) ≡ true → Ancestor ms reviewer s
    from_start s e = elim (among_cases s reviewer [] e) [
      | inl same ↦ subst (Ancestor ms reviewer) (sym same) itself
      | inr none_left ↦ absurd (ground arith)
    ]
