-- ===== src/Store/Items.antt =====
-- vp/vpstore.py: the verbs on an item, from `assign` to `findings`.
use voice_pod_dispatcher.Prelude.{
  ℕ, String, str_eq, Bool, true, false, not, ◌&&◌, List, [], ◌∷◌, Option, none, some, if◌then◌else◌,
  leb, select, length, update_where, same_text, truthy, str_of,
}
use voice_pod_dispatcher.Store.Status.{
  Status, ready, assigned, building, grading, junior_satisfied, promoted, paused, blocked, stopped,
  same_status, status_in, is_shut,
}
use voice_pod_dispatcher.Store.Schema.{Item, PacketStatus, packet_blocked, Env}
use voice_pod_dispatcher.Store.Tx.{
  Action, pure, gets, raise, raise_if, do_if, tx, usage, refused, ◌>>=◌, ◌>>◌,
}
use voice_pod_dispatcher.Store.Log.{write, packets, require_run, event, nothing}
use voice_pod_dispatcher.Store.ItemRows.{
  get_item, set_item, touch_item, pin, rebase, set_group, set_builder, set_worktree, set_note,
  set_candidate, set_paused_from,
}

-- group_no=? AND status IN ('ASSIGNED','BUILDING','GRADING','JUNIOR_SATISFIED')
abbrev same_group : Option ℕ → ℕ → Bool
same_group none g = false
same_group (some n) g = leb n g && leb g n

unfoldable pub in_flight : ℕ → List Item → ℕ
in_flight g rows = length (
    select
      (λ r.
        same_group r.group_no g
        && status_in r.status (assigned ∷ building ∷ grading ∷ junior_satisfied ∷ []))
      rows)

-- row["paused_from"] or "READY"
abbrev pub back_to : Option Status → Status
back_to none = ready
back_to (some s) = s

-- The status that `item_rebase` tests: `row["paused_from"]` may be NULL, which is no status.
abbrev unbuilt : Item → Bool
unbuilt r =
    if same_status r.status paused
    then elim r.paused_from [ none ↦ false | some s ↦ status_in s (ready ∷ assigned ∷ []) ]
    else status_in r.status (ready ∷ assigned ∷ [])

abbrev is_open_packet : PacketStatus → Bool
is_open_packet packet_blocked = false
is_open_packet _ = true

module _ (env : Env) where
  status_of : String → Action Status
  status_of item = do row ← get_item item; pure row.status

  -- The body of the transaction of `assign`.
  unfoldable pub assign_body : String → ℕ → Bool → Action (Unit {0})
  assign_body item group_no wip_check = do
    r ← require_run
    do_if env.stop_file do event env "STOP" (record nothing { item = some item }); raise refused
    do_if (is_shut r.status)
        do event env "INHIBIT" (record nothing { item = some item }); raise refused
    n ← gets (λ d. in_flight group_no d.items)
    raise_if (wip_check && leb env.wip_per_group n) refused
    set_item env item assigned none (set_group (some group_no) ∷ [])
    event env "ASSIGN" (record nothing { item = some item; ref = some (str_of group_no) })

  unfoldable pub assign : String → ℕ → Bool → Action Status
  unfolding assign_body status_of
  assign item group_no wip_check = do tx env (assign_body item group_no wip_check); status_of item

  unfoldable pub claim_body : (item role worktree : String) → Option ℕ → Action (Unit {0})
  claim_body item role worktree expected_rev = do
    do_if env.stop_file do event env "STOP" (record nothing { item = some item }); raise refused
    r ← require_run
    raise_if (is_shut r.status) refused
    row ← get_item item
    raise_if (truthy row.builder_role && not (same_text row.builder_role (some role))) refused
    set_item env item building expected_rev
        (set_builder (some role) ∷ set_worktree (some worktree) ∷ [])
    event env "CLAIM" (record nothing { item = some item; role = some role; ref = some role })

  unfoldable pub claim : (item role worktree : String) → Option ℕ → Action Status
  unfolding claim_body status_of
  claim item role worktree expected_rev = do
    tx env (claim_body item role worktree expected_rev)
    status_of item

  unfoldable pub item_pause : String → Option String → Action Status
  item_pause item note = tx env do
    row ← get_item item
    raise_if (status_in row.status (paused ∷ promoted ∷ stopped ∷ [])) refused
    set_item env item paused none (set_paused_from (some row.status) ∷ set_note note ∷ [])
    event env "PAUSE" (record nothing { item = some item })
    pure paused

  unfoldable pub item_resume : String → Action Status
  item_resume item = tx env do
    row ← get_item item
    raise_if (not (same_status row.status paused)) refused
    set_item env item (back_to row.paused_from) none (set_paused_from none ∷ [])
    event env "RESUME" (record nothing { item = some item })
    pure (back_to row.paused_from)

  unfoldable pub item_unblock : String → Option String → Status → Action Status
  item_unblock item note to =
      if not (status_in to (ready ∷ grading ∷ []))
      then raise usage
      else tx env do
        row ← get_item item
        raise_if (not (same_status row.status blocked)) refused
        set_item env item to none (set_note note ∷ [])
        event env "UNBLOCK" (record nothing { item = some item })
        pure to

  unfoldable pub item_rebase : (item base_sha : String) → Action String
  item_rebase item base_sha = tx env do
    row ← get_item item
    raise_if (not (unbuilt row)) refused
    touch_item item (rebase base_sha env.now)
    write (
        packets (
          update_where (λ p. str_eq p.item item && is_open_packet p.status)
            (λ p. record p { base_sha = base_sha })))
    event env "ITEM_REBASE" (record nothing { item = some item })
    pure base_sha

  unfoldable pub item_block : (item reason : String) → Action Status
  item_block item reason = tx env do
    row ← get_item item
    raise_if (status_in row.status (blocked ∷ promoted ∷ stopped ∷ [])) refused
    set_item env item blocked none (set_note (some reason) ∷ [])
    event env "BLOCKED" (record nothing { item = some item; ref = some item; escalate = true })
    pure blocked

  unfoldable pub item_unassign : String → Action Status
  item_unassign item = tx env do
    row ← get_item item
    raise_if (not (same_status row.status assigned)) refused
    set_item env item ready none (set_group none ∷ set_builder none ∷ [])
    event env "UNASSIGN" (record nothing { item = some item })
    pure ready

  unfoldable pub item_pin : (item server : String) → Action String
  item_pin item server = tx env do
    get_item item
    touch_item item (pin server)
    event env "PIN" (record nothing { item = some item; ref = some server })
    pure server

  unfoldable pub submit_result : (item commit : String) → Action Status
  unfolding status_of
  submit_result item commit = do
    tx env do
      set_item env item grading none (set_candidate (some commit) ∷ [])
      event env "SUBMIT_RESULT" (record nothing { item = some item; ref = some commit })
    status_of item
