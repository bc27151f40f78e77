-- ===== src/Store/Unions.antt =====
-- vp/vpstore.py: unions of items.
use voice_pod_dispatcher.Prelude.{
  ℕ, ◌+◌, String, str_eq, Bool, true, false, not, ◌&&◌, List, [], ◌∷◌, Option, none, some,
  if◌then◌else◌, ◌++◌, ltb, find_row, update_row, select, any, same_text, or_else, concat, str_of,
}
use voice_pod_dispatcher.Store.Status.{preparing, promoted, same_status}
use voice_pod_dispatcher.Store.Schema.{
  Item, Union, Proof, ProofStatus, requested, proof_running, cancelled, Db, Env,
}
use voice_pod_dispatcher.Store.Tx.{
  Action, pure, gets, raise_if, for_each, some_or, tx, refused, ◌>>=◌, ◌>>◌,
}
use voice_pod_dispatcher.Store.Log.{write, unions, proofs, insert_row, require_run, event, nothing}
use voice_pod_dispatcher.Store.ItemRows.{
  find_item, get_item, touch_item, join_union, update_item, back_to_preparing, union_cancel_from,
  last_submitted, restored, append_note,
}

abbrev pub is_union : String → Union → Bool
is_union i u = str_eq u.union_id i

-- COALESCE(MAX(no),0)
unfoldable pub max_no : List Union → ℕ
max_no [] = 0
max_no (u ∷ rest) = let m = max_no rest in if ltb m u.no then u.no else m

abbrev pub is_open_proof : ProofStatus → Bool
is_open_proof requested = true
is_open_proof proof_running = true
is_open_proof _ = false

-- Whether `union_cancel` resets the row.
unfoldable pub resets : String → Item → Bool
resets uid r = same_text r.union_id (some uid) && union_cancel_from r.status

is_promoted_row : Option Item → Bool
is_promoted_row none = false
is_promoted_row (some r) = same_status r.status promoted

-- The items of a union that no longer can be cancelled.
unfoldable pub any_promoted : List String → Db → Bool
unfolding is_promoted_row
any_promoted items d = any (λ i. is_promoted_row (find_item i d.items)) items

module _ (env : Env) where
  unfoldable pub union_record :
      (items : List String) (union_sha base_sha : String) (worktree branch note : Option String)
      → Action String
  union_record items union_sha base_sha worktree branch note = tx env do
    require_run
    for_each items
        λ it. do row ← get_item it; raise_if (not (same_status row.status preparing)) refused
    last ← gets (λ d. max_no d.unions)
    let uid = concat ("union-" ∷ str_of (last + 1) ∷ [])
    write (
        unions (
          insert_row (record {
            union_id = uid;
            no = last + 1;
            items = items;
            union_sha = union_sha;
            base_sha = base_sha;
            worktree = worktree;
            branch = branch;
            status = "BUILT";
            note = note;
            ts = env.now;
          })))
    for_each items (λ it. touch_item it (join_union union_sha uid env.now))
    event env "UNION" (record nothing { ref = some uid })
    pure uid

  unfoldable pub union_status : (union_id status : String) → Option String → Action String
  union_status union_id status note = tx env do
    found ← gets (λ d. find_row (is_union union_id) d.unions)
    some_or refused found
    write (
        unions (
          update_row (is_union union_id)
            (λ u. record u { status = status; note = or_else note u.note })))
    event env "UNION_STATUS" (record nothing { ref = some union_id })
    pure status

  unfoldable pub reset_row : String → String → Option Item → Action (List String)
  reset_row uid it none = pure []
  reset_row uid it (some row) = if not (resets uid row) then pure [] else do
    last ← gets (λ d. last_submitted it d.events)
    update_item it (back_to_preparing (restored last row.candidate_sha) env.now)
    event env "UNION_CANCELLED" (record nothing { item = some it; ref = some uid })
    pure (it ∷ [])

  unfoldable pub reset_item : String → String → Action (List String)
  reset_item uid it = do row ← gets (λ d. find_item it d.items); reset_row uid it row

  -- The loop over the items: the rows that the source reads before it are those that the loop
  -- meets, since `rows` is a dict and a row that has been reset is not reset again.
  unfoldable pub reset_items : String → List String → Action (List String)
  reset_items uid [] = pure []
  reset_items uid (it ∷ rest) = do
    first ← reset_item uid it
    more ← reset_items uid rest
    pure (first ++ more)

  cancel_proof : Proof → Action (Unit {0})
  cancel_proof pr = do
    write (
        proofs (
          update_row (λ q. str_eq q.proof_id pr.proof_id)
            (λ q. record q { status = cancelled; ts_done = some env.now })))
    event env "PROOF_RECORD" (record nothing { ref = some pr.proof_id })

  unfoldable pub union_cancel : (union_id cause : String) → Action (List String)
  unfolding cancel_proof
  union_cancel union_id cause = tx env do
    found ← gets (λ d. find_row (is_union union_id) d.unions)
    u ← some_or refused found
    raise_if (str_eq u.status "CANCELLED") refused
    shipped ← gets (any_promoted u.items)
    raise_if shipped refused
    reset ← reset_items union_id u.items
    open_proofs ←
        gets
          (λ d. select (λ p. str_eq p.candidate_sha u.union_sha && is_open_proof p.status) d.proofs)
    for_each open_proofs cancel_proof
    write (
        unions (
          update_row (is_union union_id) (λ v. record v {
            status = "CANCELLED";
            note = append_note v.note (" cancelled: " ∷ cause ∷ ";" ∷ []);
          })))
    event env "UNION_STATUS" (record nothing { ref = some union_id })
    pure reset
