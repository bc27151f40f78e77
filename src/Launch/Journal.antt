-- ===== src/Launch/Journal.antt =====
-- ci/control/orchestration_control.py: the outbox of events and messages, and the state file that
-- every command rewrites under its lock.
use Prim.Native.String.{len}
use voice_pod_dispatcher.Prelude.{
  ℕ, zero, suc, ◌+◌, ◌-◌, String, str_eq, Bool, true, false, ◌&&◌, Option, none, some, List, [],
  ◌∷◌, ◌++◌, if◌then◌else◌, ◌==◌, concat, str_of, same_text, find_row,
}
use voice_pod_dispatcher.Gate.Words.{lower}
use voice_pod_dispatcher.Launch.Check.{Check, ok, err, runtime_error}
use voice_pod_dispatcher.Launch.Schema.{
  Event, Message, Document, event_document, message_document, Publication, Control,
}
use voice_pod_dispatcher.Launch.World.{World}

zeros : ℕ → List String
zeros zero = []
zeros (suc n) = "0" ∷ zeros n

-- f"{n:08d}"
unfoldable pub pad8 : ℕ → String
unfolding zeros str_of
pad8 n = concat (zeros (8 - len (str_of n)) ++ str_of n ∷ [])

-- publications[path] = document
unfoldable pub publish : String → Document → List Publication → List Publication
publish path d [] = record { path = path; document = d } ∷ []
publish path d (p ∷ ps) =
    if str_eq p.path path then record { path = path; document = d } ∷ ps else p ∷ publish path d ps

unfoldable pub new_event : World → String → Option String → Control → Event
unfolding pad8
new_event w type task c = record {
  event_id = concat (pad8 (c.sequence + 1) ∷ "-" ∷ w.uuid ∷ []);
  sequence = c.sequence + 1;
  type = type;
  task_id = task;
  created_at = w.now;
}

-- write_event
unfoldable pub write_event : World → String → Option String → Control → Control
unfolding new_event
write_event w type task c = record c {
  sequence = c.sequence + 1;
  publications =
      publish (concat ("events/" ∷ (new_event w type task c).event_id ∷ ".json" ∷ []))
        (event_document (new_event w type task c)) c.publications;
}

unfoldable pub post : (type chief message_id : String) → Event → List String → Control → Control
post type chief message_id event tasks c = record c {
  publications =
      publish (concat ("inbox/chief-" ∷ lower chief ∷ "/" ∷ message_id ∷ ".json" ∷ []))
        (message_document (record {
          message_id = message_id;
          type = type;
          to_chief = chief;
          source_event_id = event.event_id;
          task_ids = tasks;
          created_at = event.created_at;
        }))
        c.publications;
}

-- What two documents that were read from JSON have to share to be equal.
unfoldable pub same_texts : List String → List String → Bool
same_texts [] [] = true
same_texts (a ∷ as') (b ∷ bs) = str_eq a b && same_texts as' bs
same_texts _ _ = false

unfoldable pub same_event : Event → Event → Bool
same_event a b =
    str_eq a.event_id b.event_id
    && a.sequence == b.sequence
    && str_eq a.type b.type
    && same_text a.task_id b.task_id
    && a.created_at == b.created_at

unfoldable pub same_message : Message → Message → Bool
unfolding same_texts
same_message a b =
    str_eq a.message_id b.message_id
    && str_eq a.type b.type
    && str_eq a.to_chief b.to_chief
    && str_eq a.source_event_id b.source_event_id
    && same_texts a.task_ids b.task_ids
    && a.created_at == b.created_at

unfoldable pub same_document : Document → Document → Bool
unfolding same_event same_message
same_document (event_document a) (event_document b) = same_event a b
same_document (message_document a) (message_document b) = same_message a b
same_document _ _ = false

abbrev pub at_path : String → Publication → Bool
at_path path p = str_eq p.path path

-- The files under the control directory, and the state file.
pub record Disk : Type 0 where
  pub state : Control
  pub files : List Publication

-- The file of a publication: it is written, or it has to be the same.
unfoldable pub filed :
    Publication → List Publication → Option Publication → Check (List Publication)
filed p files none = ok (files ++ p ∷ [])
filed p files (some q) = if same_document q.document p.document then ok files else err runtime_error

unfoldable pub flush_one : Publication → List Publication → Check (List Publication)
unfolding filed
flush_one p files = filed p files (find_row (at_path p.path) files)

unfoldable pub and_then :
    List Publication
    → Check (List Publication)
    → (List Publication → List Publication × Check (Unit {0}))
    → List Publication × Check (Unit {0})
and_then files (err e) k = (files, err e)
and_then files (ok files') k = k files'

-- The files are as they were left where a publication differs from its file.
unfoldable pub flush_publications :
    List Publication → List Publication → List Publication × Check (Unit {0})
unfolding flush_one and_then
flush_publications [] files = (files, ok tt)
flush_publications (p ∷ ps) files =
    and_then files (flush_one p files) (λ files'. flush_publications ps files')

unfoldable pub committed : Control → List Publication × Check (Unit {0}) → Disk × Check (Unit {0})
committed c (files, result) = (record { state = c; files = files }, result)

unfoldable pub write_back : List Publication → Control → Check Control → Disk × Check (Unit {0})
unfolding flush_publications committed
write_back files old (err e) = (record { state = old; files = files }, err e)
write_back files old (ok c) = committed c (flush_publications c.publications files)

unfoldable pub with_files :
    (Control → Check Control)
    → Control
    → List Publication × Check (Unit {0})
    → Disk × Check (Unit {0})
unfolding write_back
with_files body c (files, err e) = (record { state = c; files = files }, err e)
with_files body c (files, ok _) = write_back files c (body c)

-- locked_state around the body of a command
unfoldable pub locked : (Control → Check Control) → Disk → Disk × Check (Unit {0})
unfolding flush_publications with_files
locked body d = with_files body d.state (flush_publications d.state.publications d.files)
