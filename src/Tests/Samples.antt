-- ===== src/Tests/Samples.antt =====
-- The stores and worlds of the tests.
use voice_pod_dispatcher.Prelude.{◌≡◌, refl, true, false, none, some, [], ◌∷◌, find_row}
use voice_pod_dispatcher.Store.Status.{Status, running, approved}
use voice_pod_dispatcher.Store.Schema.{Run, Item, Attempt, Promotion, intent, Store, Env, empty_db}
use voice_pod_dispatcher.Store.ItemRows.{find_item}

abbrev pub world : Env
world = record {
  stop_file = false;
  round_cap = 3;
  wip_per_group = 2;
  now = 100;
  append_ok = λ _. true;
}

-- The same world with a STOP file.
abbrev pub stopped_world : Env
stopped_world = record {
  stop_file = true;
  round_cap = 3;
  wip_per_group = 2;
  now = 101;
  append_ok = λ _. true;
}

abbrev pub one_run : Run
one_run = record { run_id = "run-1"; started_ts = 1; status = running; trunk_head = none }

abbrev pub item_in : Status → Item
item_in st = record {
  item = "D1";
  rev = 4;
  status = st;
  group_no = some 1;
  builder_role = some "b1";
  senior_plan = none;
  senior_final = none;
  worktree = none;
  base_sha = some "base";
  candidate_sha = some "cand";
  round = 1;
  paused_from = none;
  note = none;
  pinned_server = none;
  union_id = none;
  ts = 2;
}

abbrev pub live_attempt : Attempt
live_attempt = record {
  attempt_id = "attempt-00001";
  item = "D1";
  n = 1;
  kind = "build";
  session_id = none;
  server = none;
  model = none;
  status = "RUNNING";
  started_ts = 3;
  ended_ts = none;
  result_path = none;
  detail = none;
  pid = some 12;
  driver_pid = none;
  runner = none;
}

abbrev pub store_with : Status → Store
store_with st = record {
  db = record empty_db {
    runs = one_run ∷ [];
    items = item_in st ∷ [];
    attempts = live_attempt ∷ [];
  };
  pending = [];
  disk = [];
}

abbrev pub intended : Promotion
intended = record {
  promo_id = "promo-00001";
  items = "D1" ∷ [];
  union_sha = "cand";
  base_sha = "base";
  review_id = "review-00001";
  proof_id = "proof-00001";
  status = intent;
  expected_ref = none;
  actual_ref = none;
  reason = none;
  ts = 4;
}

abbrev pub store_to_promote : Store
store_to_promote = record {
  db = record (store_with approved).db { promotions = intended ∷ [] };
  pending = [];
  disk = [];
}

pub found : (st : Status) → find_item "D1" (store_with st).db.items ≡ some (item_in st)
unfolding find_item find_row
found st = refl

pub found_to_promote : find_item "D1" store_to_promote.db.items ≡ some (item_in approved)
unfolding find_item find_row
found_to_promote = refl
