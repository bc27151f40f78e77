-- ===== src/Launch/Candidates.antt =====
-- ci/control/orchestration_control.py: `register-candidate` and `record-review`.
use voice_pod_dispatcher.Prelude.{
  String, Bool, not, ◌||◌, ◌&&◌, Option, none, some, List, [], ◌∷◌, if◌then◌else◌, concat, truthy,
  same_text, all, any,
}
use voice_pod_dispatcher.Launch.Check.{Check, ok, ◌>>=◌, ◌>>◌, refuse_if}
use voice_pod_dispatcher.Launch.Schema.{Evidence, Candidate, Chief, Event, Control, Catalog}
use voice_pod_dispatcher.Launch.World.{Files, World}
use voice_pod_dispatcher.Launch.ReviewGate.{is_empty, is_text, validate}
use voice_pod_dispatcher.Launch.Journal.{new_event, write_event, post}
use voice_pod_dispatcher.Launch.Acceptance.{put_review}
use voice_pod_dispatcher.Launch.Rows.{
  find_task, get_task, edit_task, ensure_catalog, is_running, announce,
}

-- The integration packet, with the paths of its artifacts under --artifact-root.
pub record CandidateArgs : Type 0 where
  pub candidate_sha : String
  pub tree_sha : String
  pub contract_revision : Option String
  pub artifacts : List Evidence
  pub repository : String
  pub expected_previous : Option String

-- What is asked of the packet before the state is read.
unfoldable pub check_packet : Files → CandidateArgs → Check (Unit {0})
check_packet files a = do
  refuse_if (not (files.is_commit_sha a.candidate_sha && files.is_commit_sha a.tree_sha))
  refuse_if (
      not (files.is_commit a.repository a.candidate_sha)
      || not (is_text (files.tree_of a.repository a.candidate_sha) a.tree_sha))
  refuse_if (not (all files.matches a.artifacts))
  refuse_if (is_empty a.artifacts)

abbrev pub is_registered : CandidateArgs → Candidate → Bool
is_registered a previous = is_text previous.sha a.candidate_sha && is_text previous.tree a.tree_sha

unfoldable pub tell_chiefs : Event → List Chief → Control → Control
unfolding post
tell_chiefs event [] c = c
tell_chiefs event (h ∷ hs) c = tell_chiefs event hs (
    post "CANDIDATE_REGISTERED" h.name (concat ("candidate-" ∷ event.event_id ∷ "-" ∷ h.name ∷ []))
      event [] c)

unfoldable pub with_candidate : World → CandidateArgs → Control → Control
with_candidate w a c = record c {
  candidate = record {
    sha = some a.candidate_sha;
    tree = some a.tree_sha;
    repository = some a.repository;
    registered_at = w.now;
  };
}

unfoldable pub replace_candidate : World → CandidateArgs → Control → Check Control
unfolding with_candidate new_event write_event tell_chiefs
replace_candidate w a c = do
  refuse_if (truthy c.candidate.sha && not (same_text a.expected_previous c.candidate.sha))
  refuse_if (any is_running c.tasks)
  ok (
      tell_chiefs (new_event w "CANDIDATE_REGISTERED" none c) c.chiefs
        (write_event w "CANDIDATE_REGISTERED" none (with_candidate w a c)))

unfoldable pub register_candidate : World → Catalog → CandidateArgs → Control → Check Control
unfolding check_packet ensure_catalog replace_candidate
register_candidate w cat a c = do
  check_packet w.files a
  ensure_catalog cat c
  refuse_if (not (is_text a.contract_revision c.catalog_sha256))
  if is_registered a c.candidate then ok c else replace_candidate w a c

unfoldable pub record_review : World → Catalog → (i verdict role : String) → Control → Check Control
unfolding ensure_catalog find_task validate edit_task put_review announce
record_review w cat i verdict role c = do
  ensure_catalog cat c
  r ← get_task i c
  v ← validate w c cat verdict i role
  announce w cat "REVIEW_RECORDED" i
      (edit_task i (λ r. record r { reviews = put_review v r.reviews }) c)
