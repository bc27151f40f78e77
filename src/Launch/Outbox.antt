-- ===== src/Launch/Outbox.antt =====
-- The outbox: the files beside the state file (ci/control/orchestration_control.py).
use voice_pod_dispatcher.Prelude.{
  String, eq_refl, ◌≡◌, refl, ◌∙◌, ap, subst, true, Option, none, some, List, [], ◌∷◌, ◌++◌, inl,
  inr, if◌then◌else◌, arith, Bool-cases, find_row, ◌==◌, same_text,
}
use voice_pod_dispatcher.Launch.Check.{Check, ok, err, Fault, runtime_error}
use voice_pod_dispatcher.Launch.Schema.{
  Document, event_document, message_document, Publication, Control, Catalog,
}
use voice_pod_dispatcher.Launch.World.{World}
use voice_pod_dispatcher.Launch.Journal.{
  same_texts, same_event, same_message, same_document, at_path, Disk, filed, and_then, flush_one,
  flush_publications, committed, write_back, with_files, locked,
}
use voice_pod_dispatcher.Launch.Ensures.{Ensures, Ensures-ok, Ensures-err, Ensures-if}
use voice_pod_dispatcher.Launch.Rowwise.{find_row-append}
use voice_pod_dispatcher.Launch.Commands.{Command, execute, run}

-- No file of the first list is gone or changed in the second.
abbrev pub Remain : (files files' : List Publication) → Type 0
Remain files files' =
    (path : String) (q : Publication)
    → find_row (at_path path) files ≡ some q
    → find_row (at_path path) files' ≡ some q

Remain-filed :
    (p : Publication) (files : List Publication) (o : Option Publication)
    → Ensures (Remain files) (filed p files o)
unfolding filed
Remain-filed p files none =
    Ensures-ok _ (λ path q found. find_row-append (at_path path) files p q found)
Remain-filed p files (some q) =
    Ensures-if (same_document q.document p.document) _ _
      (λ _. Ensures-ok files (λ path q found. found)) (λ _. Ensures-err _)

Remain-and_then :
    (files : List Publication) (m : Check (List Publication))
    (k : List Publication → List Publication × Check (Unit {0}))
    → Ensures (Remain files) m
    → ((files' : List Publication) → Remain files' (k files').0)
    → Remain files (and_then files m k).0
unfolding and_then
Remain-and_then files (ok files') k h hk =
    λ path q found. hk files' path q (h.at files' refl path q found)
Remain-and_then files (err e) k h hk = λ path q found. found

Remain-flush : (ps files : List Publication) → Remain files (flush_publications ps files).0
unfolding flush_publications flush_one
Remain-flush [] files = λ path q found. found
Remain-flush (p ∷ ps) files =
    Remain-and_then files (flush_one p files) (flush_publications ps)
      (Remain-filed p files (find_row (at_path p.path) files)) (Remain-flush ps)

Remain-write_back :
    (files : List Publication) (c : Control) (m : Check Control)
    → Remain files (write_back files c m).0.files
unfolding write_back committed
Remain-write_back files c (ok c') = Remain-flush c'.publications files
Remain-write_back files c (err e) = λ path q found. found

Remain-with_files :
    (body : Control → Check Control) (c : Control) (files : List Publication)
    (r : List Publication × Check (Unit {0}))
    → Remain files r.0
    → Remain files (with_files body c r).0.files
unfolding with_files
Remain-with_files body c files (files', ok u) h =
    λ path q found. Remain-write_back files' c (body c) path q (h path q found)
Remain-with_files body c files (files', err e) h = h

Remain-run :
    (w : World) (cat : Catalog) (x : Command) (d : Disk) → Remain d.files (run w cat x d).0.files
unfolding run locked
Remain-run w cat x d =
    Remain-with_files (execute w cat x) d.state d.files _
      (Remain-flush d.state.publications d.files)

-- Documents are compared field by field; each is the same as itself.
same_number : (n : _) → n == n ≡ true
same_number n = ground arith

same_texts_refl : (ss : List String) → same_texts ss ss ≡ true
unfolding same_texts
same_texts_refl [] = refl
same_texts_refl (s ∷ ss) = rw (eq_refl s, same_texts_refl ss)

same_text_refl : (o : Option String) → same_text o o ≡ true
same_text_refl none = refl
same_text_refl (some s) = eq_refl s

same_document_refl : (d : Document) → same_document d d ≡ true
unfolding same_document same_event same_message
same_document_refl (event_document e) = rw (
  eq_refl e.event_id,
  same_number e.sequence,
  eq_refl e.type,
  same_text_refl e.task_id,
  same_number e.created_at,
)
same_document_refl (message_document m) = rw (
  eq_refl m.message_id,
  eq_refl m.type,
  eq_refl m.to_chief,
  eq_refl m.source_event_id,
  same_texts_refl m.task_ids,
  same_number m.created_at,
)

-- A publication has its file, with the same document.
abbrev pub IsFiled : List Publication → Publication → Type 0
IsFiled files p =
    (q : Publication) × (find_row (at_path p.path) files ≡ some q)
    × (same_document q.document p.document ≡ true)

abbrev pub AllFiled : List Publication → (ps : List Publication) → Type 0
AllFiled files [] = Unit
AllFiled files (p ∷ ps) = IsFiled files p × AllFiled files ps

find_row-last :
    (p : Publication) (files : List Publication)
    → find_row (at_path p.path) files ≡ none
    → find_row (at_path p.path) (files ++ p ∷ []) ≡ some p
unfolding find_row
find_row-last p [] e = rw (eq_refl p.path)
find_row-last p (x ∷ xs) e = elim (Bool-cases (at_path p.path x)) [
  | inl h ↦ absurd (some≢none (rw h at e))
  | inr h ↦ rw h (find_row-last p xs (rw h at e))
]
  where
    some≢none : {x : Publication} → some x ≡ none → ⊥
    some≢none q = cc

IsFiled-filed :
    (p : Publication) (files : List Publication) (o : Option Publication)
    → find_row (at_path p.path) files ≡ o
    → Ensures (λ files'. IsFiled files' p) (filed p files o)
unfolding filed
IsFiled-filed p files none e =
    Ensures-ok _ (p, find_row-last p files e, same_document_refl p.document)
IsFiled-filed p files (some q) e =
    Ensures-if (same_document q.document p.document) _ _ (λ alike. Ensures-ok files (q, e, alike))
      (λ _. Ensures-err _)

-- The first of two steps that ended well.
step_ok :
    (files files' : List Publication) (m : Check (List Publication))
    (k : List Publication → List Publication × Check (Unit {0}))
    → and_then files m k ≡ (files', ok tt)
    → (next : List Publication) × (m ≡ ok next) × (k next ≡ (files', ok tt))
unfolding and_then
step_ok files files' (ok next) k e = (next, refl, e)
step_ok files files' (err f) k e = absurd (failed (ap (λ x. x.1) e))
  where
    failed : {f : Fault} → ◌≡◌ {A = Check (Unit {0})} (err f) (ok tt) → ⊥
    failed q = ground arith

AllFiled-flush :
    (ps files files' : List Publication)
    → flush_publications ps files ≡ (files', ok tt)
    → AllFiled files' ps
unfolding flush_publications flush_one
AllFiled-flush [] files files' e = tt
AllFiled-flush (p ∷ ps) files files' e =
    let (next, first, rest) = step_ok files files' (flush_one p files) (flush_publications ps) e in
    let (q, found, alike) =
      (IsFiled-filed p files (find_row (at_path p.path) files) refl).at next first in
    (
      (
        q,
        subst (λ xs. find_row (at_path p.path) xs ≡ some q) (ap (λ x. x.0) rest)
            (Remain-flush ps next p.path q found),
        alike,
      ),
      AllFiled-flush ps next files' rest,
    )

flush_one-filed :
    (p : Publication) (files : List Publication) → IsFiled files p → flush_one p files ≡ ok files
unfolding flush_one filed
flush_one-filed p files (q, found, alike) =
    ap (filed p files) found ∙ ap (λ b. if b then ok files else err runtime_error) alike

flush-filed :
    (ps files : List Publication) → AllFiled files ps → flush_publications ps files ≡ (files, ok tt)
unfolding flush_publications and_then
flush-filed [] files h = refl
flush-filed (p ∷ ps) files (hp, h) =
    ap (λ m. and_then files m (flush_publications ps)) (flush_one-filed p files hp)
    ∙ flush-filed ps files h

-- Once the publications were flushed and none differed from its file, each has its file, and to
-- flush them again, as the next command does, changes nothing.
pub flush_publications-again :
    (ps files files' : List Publication)
    → flush_publications ps files ≡ (files', ok tt)
    → AllFiled files' ps × (flush_publications ps files' ≡ (files', ok tt))
flush_publications-again ps files files' e =
    let filed = AllFiled-flush ps files files' e in (filed, flush-filed ps files' filed)

-- How a command may end: well, with its result in the state file and a file for each publication of
-- the result; with an error that leaves the state file as it was; or with its result in the state
-- file and an error of the flush after it.
pub data Outcome (m : Check Control) (old : Control) : (Disk × Check (Unit {0})) → Type 0 where
  done :
      {d : Disk} → m ≡ ok d.state → AllFiled d.files d.state.publications → Outcome m old (d, ok tt)
  unchanged : {d : Disk} {e : Fault} → d.state ≡ old → Outcome m old (d, err e)
  unpublished :
      {d : Disk} {e : Fault}
      → m ≡ ok d.state
      → (files : List Publication)
      → flush_publications d.state.publications files ≡ (d.files, err e)
      → Outcome m old (d, err e)

Outcome-committed :
    (m : Check Control) (old c : Control) (files : List Publication)
    (r : List Publication × Check (Unit {0}))
    → m ≡ ok c
    → flush_publications c.publications files ≡ r
    → Outcome m old (committed c r)
unfolding committed
Outcome-committed m old c files (files', ok u) e flushed =
    done e (AllFiled-flush c.publications files files' flushed)
Outcome-committed m old c files (files', err f) e flushed = unpublished e files flushed

Outcome-write_back :
    (files : List Publication) (c : Control) (m : Check Control)
    → Outcome m c (write_back files c m)
unfolding write_back
Outcome-write_back files c (ok c') = Outcome-committed (ok c') c c' files _ refl refl
Outcome-write_back files c (err e) = unchanged refl

Outcome-with_files :
    (body : Control → Check Control) (c : Control) (r : List Publication × Check (Unit {0}))
    → Outcome (body c) c (with_files body c r)
unfolding with_files
Outcome-with_files body c (files, ok u) = Outcome-write_back files c (body c)
Outcome-with_files body c (files, err e) = unchanged refl

-- A command that ends well has written its result to the state file, and each publication of it has
-- its file. One that raises leaves the state file as it was, unless what raises is the flush after
-- the state file was written. In no case is a file that was published changed or removed.
pub run-Outcome :
    (w : World) (cat : Catalog) (x : Command) (d : Disk)
    → Outcome (execute w cat x d.state) d.state (run w cat x d)
      × Remain d.files (run w cat x d).0.files
unfolding run locked
run-Outcome w cat x d = (
  Outcome-with_files (execute w cat x) d.state (flush_publications d.state.publications d.files),
  Remain-run w cat x d,
)
