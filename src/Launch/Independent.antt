-- ===== src/Launch/Independent.antt =====
-- Who may review (ci/control/review_gate.py, `validate`).
use voice_pod_dispatcher.Prelude.{
  String, str_eq, ◌≡◌, refl, Bool, true, false, not, ◌||◌, Option, none, some, List, arith,
  find_row, is_among, is_some, all, truthy,
}
use voice_pod_dispatcher.Launch.Check.{ok, invalid_if, readable}
use voice_pod_dispatcher.Launch.Schema.{ReviewRecord, Task, Control, Catalog}
use voice_pod_dispatcher.Launch.World.{ReviewPacket, World}
use voice_pod_dispatcher.Launch.ReviewGate.{
  is_task, is_text, is_empty, is_known_author, independent_reviewer, check_subject, check_session,
  check_dispatch, criteria, is_covered, hashed_all, validate,
}
use voice_pod_dispatcher.Launch.Ensures.{Ensures, Ensures-ok, after_value, after_find, after_needed}

-- The reviewer of a record is no author that the packet names, built nothing, runs no queue, and is
-- the session to which a review task of that role was dispatched.
pub record IsIndependent (w : World) (c : Control) (path role : String) (v : ReviewRecord)
    : Type 0 where
  pub packet : ReviewPacket
  pub read : w.files.review_packet path ≡ some packet
  pub authors : List String
  pub named : packet.authors ≡ some authors
  pub no_author : is_among v.reviewer authors ≡ false
  pub no_builder : is_known_author c v.reviewer ≡ false
  pub review_task_id : String
  pub review_task : Task
  pub dispatched : find_row (is_task review_task_id) c.tasks ≡ some review_task
  pub own_session : is_text review_task.child_id v.reviewer ≡ true
  pub of_role : str_eq review_task.kind role ≡ true

valid-not : (b : Bool) → invalid_if b ≡ ok tt → b ≡ false
unfolding invalid_if
valid-not true e = ground arith
valid-not false e = refl

neither : (a b : Bool) → a || b ≡ false → (a ≡ false) × (b ≡ false)
neither a b e = ground arith

both : (a b : Bool) → not a || not b ≡ false → (a ≡ true) × (b ≡ true)
both a b e = ground arith

abbrev NoAuthor : ReviewPacket → String → Type 0
NoAuthor packet reviewer =
    (authors : List String) × (packet.authors ≡ some authors) × (is_among reviewer authors ≡ false)

NoAuthor-independent_reviewer :
    (packet : ReviewPacket) → Ensures (NoAuthor packet) (independent_reviewer packet)
unfolding independent_reviewer
NoAuthor-independent_reviewer packet =
    after_value (invalid_if (not (truthy packet.reviewer))) _ (λ _ _.
      after_needed packet.reviewer _ (λ reviewer _.
        after_value (invalid_if (not (is_some packet.authors))) _ (λ _ _.
          after_needed packet.authors _ (λ authors named.
            after_value (invalid_if (is_empty authors || is_among reviewer authors)) _ (λ _ e.
              let (_, apart) =
                neither (is_empty authors) (is_among reviewer authors) (valid-not _ e) in
              Ensures-ok reviewer (authors, named, apart))))))

abbrev Dispatched : Control → (role reviewer : String) → Type 0
Dispatched c role reviewer =
    (i : String) × (task : Task) × (find_row (is_task i) c.tasks ≡ some task)
    × (is_text task.child_id reviewer ≡ true)
    × (str_eq task.kind role ≡ true)

Dispatched-check_dispatch :
    (c : Control) (packet : ReviewPacket) (role reviewer : String)
    → Ensures (λ _. Dispatched c role reviewer) (check_dispatch c packet role reviewer)
unfolding check_dispatch
Dispatched-check_dispatch c packet role reviewer =
    after_value (invalid_if (not (is_some packet.review_task_id))) _ (λ _ _.
      after_needed packet.review_task_id _ (λ i _.
        after_value (invalid_if (not (is_some (find_row (is_task i) c.tasks)))) _ (λ _ _.
          after_needed (find_row (is_task i) c.tasks) _ (λ task found. record {
            at = λ a e.
                let (own, of_role) =
                  both (is_text task.child_id reviewer) (str_eq task.kind role) (valid-not _ e) in
                (i, task, found, own, of_role);
          }))))

IsIndependent-validate :
    (w : World) (c : Control) (cat : Catalog) (path target role : String)
    → Ensures (IsIndependent w c path role) (validate w c cat path target role)
unfolding validate
IsIndependent-validate w c cat path target role =
    after_value (readable (w.files.review_packet path)) _ (λ packet read.
      after_value (check_subject w.files c packet role) _ (λ _ _.
        after_value (independent_reviewer packet) _ (λ reviewer named.
          after_value (invalid_if (is_known_author c reviewer)) _ (λ _ no_builder.
            after_value (check_session w.files packet role reviewer) _ (λ _ _.
              after_value (check_dispatch c packet role reviewer) _ (λ a sent.
                after_value (criteria c cat target) _ (λ required _.
                  after_value (invalid_if (is_empty required)) _ (λ _ _.
                    after_value
                      (invalid_if (not (all (is_covered packet.coverage target) required))) _
                      (λ _ _. after_value (invalid_if (is_empty packet.artifacts)) _ (λ _ _.
                        after_value (hashed_all w.files packet.artifacts) _ (λ _ _.
                          after_find packet.candidate_sha _ (λ candidate_sha _.
                            after_find packet.tree_sha _ (λ tree_sha _.
                              let (authors, listed, no_author) =
                                (NoAuthor-independent_reviewer packet).at reviewer named in
                              let (i, task, found, own, of_role) =
                                (Dispatched-check_dispatch c packet role reviewer).at a sent in
                              Ensures-ok _ (record {
                                packet = packet;
                                read = was_read (w.files.review_packet path) packet read;
                                authors = authors;
                                named = listed;
                                no_author = no_author;
                                no_builder = valid-not _ no_builder;
                                review_task_id = i;
                                review_task = task;
                                dispatched = found;
                                own_session = own;
                                of_role = of_role;
                              }))))))))))))))
  where
    was_read : (o : Option ReviewPacket) (p : ReviewPacket) → readable o ≡ ok p → o ≡ some p
    was_read none p e = absurd (ground arith)
    was_read (some q) p e = ground arith

-- A review that is taken is independent: its reviewer is none of the authors that the packet names,
-- is no session that a task of another kind than a review was given to and no chief's thread, and is
-- the session of a dispatched review task of that role.
pub validate-IsIndependent :
    (w : World) (c : Control) (cat : Catalog) (path target role : String) (v : ReviewRecord)
    → validate w c cat path target role ≡ ok v
    → IsIndependent w c path role v
validate-IsIndependent w c cat path target role v e =
    (IsIndependent-validate w c cat path target role).at v e
