-- ===== src/Examples/Threads.antt =====
-- The theorems on the locks of the namespace, at two handlers.
use google_file_system.Locks.{lock_keys}
use google_file_system.Locks.Threads.{
  entering, leaving, acquires, works, releases, assign, Running, pick, init, set_thread, Reach,
  begins, continues,
}
use google_file_system.Locks.Threads.Invariant.{once}
use google_file_system.Locks.Threads.Progress.{
  CanStep, no_deadlock, mutual_exclusion, IsFinished, run-IsFinished,
}
use google_file_system.Locks.Threads.Work.{steps}
use google_file_system.Prelude.{
  ℕ, ◌≡◌, ◌≢◌, refl, none, some, String, [], ◌∷◌, ◌==◌, if◌then◌else◌, arith, nat_eq, string_eq,
}
use google_file_system.Text.{strip_slashes, split_slashes}

-- Two requests for files in one directory.
abbrev paths : ℕ → String
paths i = if i == 0 then "/a/b" else "/a/c"

keys_of : lock_keys "/a/b" ≡ "/a" ∷ "/a/b" ∷ []
unfolding lock_keys strip_slashes split_slashes string_eq nat_eq
keys_of = refl

-- The first has taken the lock that both need.
abbrev parent_taken : Running
parent_taken = record {
  held = assign (λ key. none) "/a" (some (once 0));
  threads = set_thread (init paths).threads 0 (entering ("/a/b" ∷ []) ("/a" ∷ []));
}

take_parent : Reach 2 paths 1 parent_taken
unfolding lock_keys strip_slashes split_slashes string_eq nat_eq
take_parent = continues begins (pick 0 (omega arith) (acquires refl))

no_deadlock_example : CanStep 2 parent_taken
unfolding lock_keys strip_slashes split_slashes string_eq nat_eq
no_deadlock_example = no_deadlock take_parent (omega arith)

-- The first takes its other lock too, and is in its body; the second still waits.
abbrev in_body : Running
in_body = record {
  held = assign parent_taken.held "/a/b" (some (once 0));
  threads = set_thread parent_taken.threads 0 (entering [] ("/a/b" ∷ "/a" ∷ []));
}

take_child : Reach 2 paths 2 in_body
unfolding lock_keys strip_slashes split_slashes string_eq nat_eq
take_child = continues take_parent (pick 0 (omega arith) (acquires refl))

mutual_exclusion_example : in_body.threads 1 ≢ entering [] ("/a/c" ∷ "/a" ∷ [])
unfolding lock_keys strip_slashes split_slashes string_eq nat_eq
mutual_exclusion_example =
    mutual_exclusion 0 1 "/a" ("/a/c" ∷ "/a" ∷ []) take_child (omega arith) refl refl refl

-- One request alone, from its start to its end.
abbrev alone : ℕ → String
alone i = "/a"

abbrev ended : Running
ended = record {
  held = assign (assign (λ key. none) "/a" (some (once 0))) "/a" none;
  threads =
      set_thread
        (set_thread (set_thread (init alone).threads 0 (entering [] ("/a" ∷ []))) 0
          (leaving ("/a" ∷ [])))
        0 (leaving []);
}

whole_run : Reach 1 alone (steps 1 alone) ended
unfolding lock_keys strip_slashes split_slashes string_eq nat_eq
whole_run =
    continues
      (continues (continues begins (pick 0 (omega arith) (acquires refl)))
        (pick 0 (omega arith) works))
      (pick 0 (omega arith) releases)

run-IsFinished_example : IsFinished 1 ended
run-IsFinished_example = run-IsFinished whole_run
