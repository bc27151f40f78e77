-- ===== src/Tests/Clauses.antt =====
-- Rows of a benchmark, one whose check is a list of test nodes.
use voice_pod_dispatcher.Prelude.{str_eq, none, some, if◌then◌else◌}
use voice_pod_dispatcher.Clause.Classify.{RowPatterns}

-- Every row declares the gate CIRCLECI and has the body "nodes: a" or, if it is named "prose", "a".
abbrev reading : RowPatterns
reading = record {
  gate_of = λ _. some "CIRCLECI";
  body_of = λ row. some (if str_eq row "prose" then "a" else "nodes: a");
  lead_of = λ body. if str_eq body "a" then none else some ("nodes", "a");
}
