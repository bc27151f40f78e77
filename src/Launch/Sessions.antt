-- ===== src/Launch/Sessions.antt =====
-- ci/control/review_gate.py: what a session log says of a reviewer: its ancestors, and the turns
-- that it took after the fork.
use voice_pod_dispatcher.Prelude.{
  ℕ, zero, suc, ◌+◌, ◌*◌, String, Bool, true, false, ◌&&◌, Option, none, some, List, [], ◌∷◌, ◌++◌,
  if◌then◌else◌, ltb, is_among, same_text, find_row, all, length,
}
use voice_pod_dispatcher.Launch.World.{
  SessionMeta, TurnContext, LogRow, session_meta, turn_context, other_row,
}

-- The payloads of the session_meta rows.
unfoldable pub metas_of : List LogRow → List SessionMeta
metas_of [] = []
metas_of (session_meta m ∷ rows) = m ∷ metas_of rows
metas_of (turn_context t ∷ rows) = metas_of rows
metas_of (other_row ∷ rows) = metas_of rows

unfoldable pub contexts_of : List LogRow → List TurnContext
contexts_of [] = []
contexts_of (session_meta m ∷ rows) = contexts_of rows
contexts_of (turn_context t ∷ rows) = t ∷ contexts_of rows
contexts_of (other_row ∷ rows) = contexts_of rows

abbrev pub optional : {A : Type 0} → Option A → List A
optional none = []
optional (some a) = a ∷ []

abbrev pub is_meta : String → SessionMeta → Bool
is_meta s m = same_text m.id (some s)

-- metas[payload["id"]] = payload: of two rows with the same id the last counts.
unfoldable pub meta_of : String → List SessionMeta → Option SessionMeta
meta_of s [] = none
meta_of s (m ∷ ms) = elim (meta_of s ms) [
  | some later ↦ some later
  | none ↦ if is_meta s m then some m else none
]

abbrev pub parents : SessionMeta → List String
parents m = optional m.parent_thread_id ++ optional m.forked_from_id

abbrev pub parents_of : List SessionMeta → String → List String
parents_of ms s = elim (meta_of s ms) [ none ↦ [] | some m ↦ parents m ]

-- for key in (…): the parents that are not in the chain go onto it and onto the stack.
unfoldable pub climb : List String → (stack chain : List String) → List String × List String
climb [] stack chain = (stack, chain)
climb (p ∷ ps) stack chain =
    if is_among p chain then climb ps stack chain else climb ps (p ∷ stack) (p ∷ chain)

-- while stack, with fuel; `none` means that the fuel ran out.
unfoldable pub chain_fuel :
    ℕ → List SessionMeta → (stack chain : List String) → Option (List String)
unfolding climb
chain_fuel zero ms stack chain = none
chain_fuel (suc f) ms [] chain = some chain
chain_fuel (suc f) ms (s ∷ stack) chain =
    let (stack', chain') = climb (parents_of ms s) stack chain in chain_fuel f ms stack' chain'

-- A row names two parents at most, and each goes onto the stack once.
abbrev pub chain_bound : List SessionMeta → ℕ
chain_bound ms = 2 * length ms + 2

unfoldable pub reviewer_chain : List SessionMeta → String → Option (List String)
unfolding chain_fuel
reviewer_chain ms reviewer = chain_fuel (chain_bound ms) ms (reviewer ∷ []) (reviewer ∷ [])

abbrev pub on_chain : List String → Option String → Bool
on_chain chain none = false
on_chain chain (some s) = is_among s chain

abbrev pub turn_on_chain : List String → TurnContext → Bool
turn_on_chain chain t = elim t.session_id [ none ↦ true | some s ↦ is_among s chain ]

-- _sessions_match_reviewer_chain
unfoldable pub sessions_match : List LogRow → String → Bool
unfolding metas_of contexts_of reviewer_chain
sessions_match rows reviewer = elim (find_row (is_meta reviewer) (metas_of rows)) [
  | none ↦ false
  | some _ ↦ elim (reviewer_chain (metas_of rows) reviewer) [
    | none ↦ false
    | some chain ↦
        all (λ m. on_chain chain m.id) (metas_of rows)
        && all (turn_on_chain chain) (contexts_of rows)
  ]
]

unfoldable pub cuts : List SessionMeta → List ℕ
cuts [] = []
cuts (m ∷ ms) = optional m.forked_from_ordinal ++ optional m.history_start_ordinal ++ cuts ms

abbrev pub larger : ℕ → ℕ → ℕ
larger a b = if ltb a b then b else a

-- max(ns) if ns else None
unfoldable pub max_of : List ℕ → Option ℕ
max_of [] = none
max_of (n ∷ ns) = elim (max_of ns) [ none ↦ some n | some k ↦ some (larger n k) ]

unfoldable pub fork_cutoff : List LogRow → Option ℕ
unfolding cuts max_of metas_of
fork_cutoff rows = max_of (cuts (metas_of rows))

abbrev pub is_post_fork : ℕ → TurnContext → Bool
is_post_fork cut t = elim t.ordinal [ none ↦ true | some n ↦ ltb cut n ]

unfoldable pub keep_turns : (TurnContext → Bool) → List TurnContext → List TurnContext
keep_turns p [] = []
keep_turns p (t ∷ ts) = let rest = keep_turns p ts in if p t then t ∷ rest else rest

unfoldable pub post_fork_contexts : List LogRow → List TurnContext
unfolding fork_cutoff contexts_of keep_turns
post_fork_contexts rows = elim (fork_cutoff rows) [
  | none ↦ contexts_of rows
  | some cut ↦ keep_turns (is_post_fork cut) (contexts_of rows)
]
