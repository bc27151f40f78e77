-- ===== src/Store/Terminal.antt =====
-- The last statuses of an item (vp/vpstore.py, ITEM_TRANSITIONS).
use voice_pod_dispatcher.Prelude.{ℕ, ◌<◌, String, ◌≡◌, sym, ◌∙◌, some, List, ◌⊎◌, inl, inr, arith}
use voice_pod_dispatcher.Store.Status.{Status, approved, promoted, stopped}
use voice_pod_dispatcher.Store.Schema.{Item, Store, Env}
use voice_pod_dispatcher.Store.ItemRows.{find_item}
use voice_pod_dispatcher.Store.Commands.{Command, history}
use voice_pod_dispatcher.Store.Lifecycle.{Move, along, cancelled, Reach, here, next, history-Reach}

Move-promoted : {b : Status} → Move promoted b → b ≡ promoted
Move-promoted (along e) = ground arith
Move-promoted (cancelled e p) = ground arith

Reach-promoted : {a b : Status} {n : ℕ} → a ≡ promoted → Reach a n b → b ≡ promoted
Reach-promoted e here = e
Reach-promoted e (next r m) = Move-promoted (rw (Reach-promoted e r) at m)

Move-stopped : {b : Status} → Move stopped b → b ≡ stopped
Move-stopped (along e) = ground arith
Move-stopped (cancelled e p) = ground arith

Reach-stopped : {a b : Status} {n : ℕ} → a ≡ stopped → Reach a n b → b ≡ stopped
Reach-stopped e here = e
Reach-stopped e (next r m) = Move-stopped (rw (Reach-stopped e r) at m)

-- APPROVED at an earlier revision than the one that is `n` revisions later.
abbrev pub ApprovedBefore : (a : Status) → ℕ → Type 0
ApprovedBefore a n = (m : ℕ) × Reach a m approved × (m < n)

module _ (steps : List (Env × Command)) (s : Store) (i : String) (r : Item)
    (found : find_item i s.db.items ≡ some r) where
  -- An item that is PROMOTED or STOPPED keeps that status through every history.
  pub history_terminal :
      (r.status ≡ promoted) ⊎ (r.status ≡ stopped)
      → (r' : Item) × (find_item i (history steps s).db.items ≡ some r') × (r'.status ≡ r.status)
  history_terminal ends =
      let (r', n, found', revised, reached) = history-Reach steps s i r found in
      (
        r',
        found',
        elim ends [
          | inl e ↦ Reach-promoted e reached ∙ sym e
          | inr e ↦ Reach-stopped e reached ∙ sym e
        ],
      )
