-- ===== src/Lib.antt =====
-- Models of the control layer that schedules, grades and merges the work of several coding
-- sessions on one machine, and what is proved of it.
--
-- The parts, and the files that model them:
--   * Store (vp/vpstore.py), the authority store. Every daemon and every command line changes the
--     run through its verbs. Store/Status and Store/Schema have the statuses, the transition table
--     and the tables; Store/Tx the transaction; Store/Log ids, the current run and `event`;
--     Store/ItemRows `_set_item` and the other statements that write an item; Runs, Packets, Items,
--     Findings, Turns, Unions, Traffic, Reviews and Promotions have the verbs, under the names of
--     the methods (`packet_ready` is `ready_packet`). Store/Commands makes one type of the verbs,
--     and `history` is a client that calls one after the other and goes on after a refusal.
--   * Box (vp/vp_box_lock.py), the lock directories of the machine: Box/Locks one attempt at a
--     lock, reaping and release, Box/Rounds `_round` and `acquire`.
--   * Gate (autogate.py), the decision after a merge gate, and when a gate is launched. Of
--     dispatcher.py it has what `send_rework` records of a rework.
--   * Clause (vp/vpclause.py), the typed check clause of a benchmark row: its classification, and
--     what the linters and the lane driver ask of it.
--   * Alerts (vp/vpalerts.py), the severity of an alert from the alerts before it: Alerts/Signals
--     what is measured, Alerts/Severity the tiers and `annotate`. Times are what `parse_ts` reads,
--     whole seconds, and `now` is the time of the alert or the clock.
--   * Waits (pglock.py), the runs that wait for the lock of the postgres server: Waits/Verdict
--     `probe` and `verdict`, Waits/Population the runs that markers name. What the kernel and ps
--     answer is an argument; times are hundredths of a second.
--   * Launch (ci/control/orchestration_control.py, ci/control/review_gate.py), the scheduler of the
--     launch catalog, which turns a completion into READY work. Launch/Schema and Launch/World have
--     run-state.json and what a command reads and does not own; Paths, Journal, Readiness and
--     Acceptance the functions that the commands share; Setup, Claiming, Work, Repair,
--     Contamination, Migrations, Candidates and Verify the commands, under the names of their verbs
--     (`cmd_claim` is `claim`); Sessions and ReviewGate the validation of a review packet against
--     the session log of its reviewer. Launch/Commands makes one type of the commands.
--
-- How the store is modelled. A table is the list of its rows, the newest first. An UPDATE by
-- primary key changes the first row that matches, and a SELECT whose order SQL leaves open gives
-- the list's order. A verb is a function from the store to a result and the store after it; an
-- exception is the result `err`, with the kind of the exception and without its text. `tx` puts the
-- database back where its body raises; where the body ends, the pending lines are appended to the
-- files before COMMIT, and an append that fails raises and rolls the database back, while the lines
-- before it stay on disk. A nested `tx` joins the outer one, so the model calls the body of a verb
-- that runs inside another. `Env` has what a verb reads and does not own: whether a STOP file is
-- there, two numbers of roster.json, the clock (read once in a verb) and whether each append
-- succeeds. Which processes live is an argument of `reconcile`. Times are numbers. The run
-- status STOPPED is RunStatus.halted; the verdicts APPROVED, FINDINGS and BLOCKED are accepted,
-- findings_found and refused_outright.
--
-- Verbs prove an invariant by the interface Store/Rule: a predicate on the database that each kind
-- of statement keeps. Store/Keeps and Store/Preserve carry it through transactions, verbs and
-- histories, once for all predicates. Store/Outcome has the other direction: equations for verbs
-- that succeed.
--
-- How the launch scheduler is modelled. A dict that is keyed by ids is the list of its values in
-- the order of insertion, and the contracts of a catalog have different ids. A command is a function
-- from the state to `Check`, its value or the kind of its exception; `locked` puts the two flushes
-- of the outbox and the write of the state file round it. The loop of `recompute_readiness` reads
-- the rows that it has written already, as in the code. utc_now is read once in a command, and
-- times are numbers. `World` has the files by what the commands ask of them: whether a file has
-- the hash that a record names, the JSON of packets and evidence, the rows of session logs, and
-- what git and Python's `re` answer. Paths of claims are the relative paths that
-- `normalize_path` makes, a text that `/` splits. A review key is the list of its parts and not
-- its hash. The search for a reviewer's ancestors has two rounds of fuel for each session_meta row,
-- and two more. Launch/Rule, Launch/Changes and Launch/Preserve carry an invariant through every
-- command and history, as Store/Rule does for the store; an invariant may have one form before the
-- command writes the row of its task, and another after it.
--
-- The box lock's `World` has what the file system answers and the directory that another process
-- makes between the rmdir and the mkdir of a reaping. Other processes come there and between the
-- rounds of `acquire` (`Turn`), and not between the attempts of one round. `acquire` takes the
-- rounds before its deadline as a list and recurs on it, so it needs no fuel.
--
-- The regular expressions of gates and clauses are parameters (`Patterns`, `RowPatterns`), since
-- Python's `re` evaluates them; `upper` and `lower` change ASCII letters.
--
-- The decimal digits of a number (Prelude/Texts) recur on the number itself as fuel: a number has
-- fewer digits than its value plus one.
--
-- Not modelled: the schema migration and the PRAGMAs, the retry of BEGIN IMMEDIATE, ids that a
-- table has already (IntegrityError), columns and JSON that are written and never read, hashes of
-- files, `report`, `audit`, `render` and `seal` of the store; an owner.json that cannot be written,
-- the texts of reasons, the merge of configurations of alerts, and the command lines; what the
-- launch scheduler prints, with `frontier` and `migration list`, which do nothing else, keys of
-- run-state.json that are written and never read, and that a command reads its arguments and
-- evidence before it takes the lock (the model reads them inside, from one snapshot of the files);
-- the daemons' loops, which call processes, git and HTTP.
pub mod Prelude
pub mod Store
pub mod Box
pub mod Gate
pub mod Clause
pub mod Alerts
pub mod Waits
pub mod Launch
pub mod Tests
