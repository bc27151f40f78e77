-- ===== src/Tests/Boxes.antt =====
-- The theorems about the box lock, for an exclusive audit and a small proof.
use voice_pod_dispatcher.Prelude.{arith, if◌then◌else◌, ◌≡◌, refl, true, false, none, some, [], ◌∷◌}
use voice_pod_dispatcher.Box.Locks.{
  box, drop, remove_dir, remove_held, exclusive, slot, LockName, slot_0, slot_1, same_lock, among,
  Dir, Me, World, Locks, my_dir, names_for, put, take, try_dir, try_one, release_names, release,
}
use voice_pod_dispatcher.Box.Rounds.{Turn, kept, take_all, round_in, round, acquire}
use voice_pod_dispatcher.Box.Holders.{round_keeps_live_holders, box_excludes}
use voice_pod_dispatcher.Box.Taking.{exclusive_round_takes_all}
use voice_pod_dispatcher.Box.Covers.{Covers, Foreign}
use voice_pod_dispatcher.Box.Clean.{
  Removes, Gone, Tidy, waits_with_box_at_most, acquire_fails_clean,
}

abbrev machine : World
machine = record {
  alive = λ _. true;
  mkdir_ok = λ _. true;
  unlink_ok = λ _. true;
  rmdir_ok = λ _. true;
  beaten = λ _. none;
}

abbrev audit : Me
audit = record { pid = 7; token = "a"; proof_id = "audit"; tier = exclusive; is_portal = false }

abbrev small : Me
small = record { pid = 8; token = "b"; proof_id = "proof-1"; tier = slot; is_portal = false }

abbrev audit_dir : Dir
audit_dir = my_dir audit machine

-- The audit has every lock, and nobody has one.
abbrev all_taken : Locks
all_taken = record { dirs = λ _. some audit_dir; held = []; reaped = [] }

abbrev all_free : Locks
all_free = record { dirs = λ _. none; held = []; reaped = [] }

keeps_example : (round small machine all_taken).1.dirs slot_1 ≡ some audit_dir
keeps_example = round_keeps_live_holders small machine slot_1 all_taken audit_dir refl refl

excludes_example : round small machine all_taken ≡ (false, all_taken)
unfolding among
excludes_example = box_excludes small machine all_taken audit_dir refl refl refl

nothing_held : (m : LockName) → among m [] ≡ true → none ≡ some audit_dir
unfolding among
nothing_held m e = cc

audit_succeeds : (round audit machine all_free).0 ≡ true
unfolding round round_in take_all names_for try_one try_dir take put among same_lock
audit_succeeds = refl

takes_example : (round audit machine all_free).1.dirs slot_1 ≡ some audit_dir
takes_example =
    exclusive_round_takes_all audit machine all_free slot_1 refl nothing_held audit_succeeds

-- A small proof has slot-1, and the audit finds the rest free.
abbrev one_taken : Locks
one_taken = record {
  dirs = λ n. if same_lock n slot_1 then some (my_dir small machine) else none;
  held = [];
  reaped = [];
}

foreign : Foreign audit machine
foreign n = refl

removes : Removes machine
removes n = (refl, refl)

tokens_held : Covers audit one_taken
unfolding same_lock
tokens_held m e = ground (arith, e)

-- The round takes box.lock.d and slot-0, and slot-0 is released.
waits_example :
    Gone audit slot_0 (release audit machine (kept exclusive) (round audit machine one_taken).1)
unfolding among same_lock
waits_example =
    waits_with_box_at_most audit machine one_taken slot_0 foreign removes tokens_held refl

abbrev later : Turn
later = record { world = machine; others = λ dirs. dirs }

tidy : Tidy audit (later ∷ [])
unfolding Tidy
tidy = ((foreign, removes, λ dirs n e. e), tt)

audit_gives_up : (acquire audit (later ∷ []) machine one_taken).0 ≡ false
unfolding acquire round round_in take_all names_for try_one try_dir take put among same_lock release
    release_names drop remove_dir remove_held
audit_gives_up = refl

clean_example : Gone audit box (acquire audit (later ∷ []) machine one_taken).1
clean_example =
    acquire_fails_clean audit (later ∷ []) machine one_taken box tidy foreign removes tokens_held
      audit_gives_up
