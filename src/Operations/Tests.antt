-- ===== src/Operations/Tests.antt =====
-- Tests of the operations and their lock.
use bonghos.Base.{ℕ, ◌≡◌, refl, Bool, true, not, eqb, List, [], ◌∷◌, some}
use bonghos.Operations.Lock.{advance, trying, holding, gave_up, World, interleave, unlocked}
use bonghos.Operations.Store.{
  progress, finish, perform, Operation, Operations, create, kept_or, set_stage, Call, sets_stage,
  progresses, finishes, restarts, perform_all, clean_stale,
}
use bonghos.Operations.StoreLaws.{find, IsStarted, perform_all-IsStarted}
use bonghos.Operations.LockLaws.{lock_excludes}

abbrev everyone : ℕ → Bool
everyone p = true

lock_excludes_example : ◌≡◌ {A = ℕ} 1 1
unfolding interleave advance
lock_excludes_example = lock_excludes everyone (1 ∷ 2 ∷ 1 ∷ 2 ∷ []) 1 1 (λ n. refl) refl refl

second_refused : (interleave everyone (1 ∷ 2 ∷ 1 ∷ 2 ∷ []) unlocked).place 2 ≡ gave_up
unfolding interleave advance
second_refused = refl

after_release : (interleave everyone (1 ∷ 1 ∷ 1 ∷ 2 ∷ 2 ∷ []) unlocked).place 2 ≡ holding
unfolding interleave advance
after_release = refl

-- The lock file of process 9, which is dead.
abbrev left_behind : World
left_behind = record {
  file = some (record { creator = 9; content = some 9 });
  place = λ p. trying 0;
}

abbrev without_nine : ℕ → Bool
without_nine p = not (eqb p 9)

reclaimed : (interleave without_nine (1 ∷ 1 ∷ 1 ∷ 1 ∷ 1 ∷ []) left_behind).place 1 ≡ holding
unfolding interleave advance
reclaimed = refl

-- Processes 1 and 2 both find the dead one's file and judge it; 1 removes it and takes the lock, and then 2
-- removes the lock file of 1 and takes the lock as well.
abbrev race : World
race = interleave without_nine (1 ∷ 2 ∷ 1 ∷ 2 ∷ 1 ∷ 1 ∷ 1 ∷ 2 ∷ 2 ∷ 2 ∷ []) left_behind

race_first : race.place 1 ≡ holding
unfolding interleave advance
race_first = refl

race_second : race.place 2 ≡ holding
unfolding interleave advance
race_second = refl

abbrev imported : Operations
imported =
    kept_or (record { rows = []; cancels = []; told = [] })
      (create 5 "a1" "import" (record { rows = []; cancels = []; told = [] }))

abbrev calls : List (ℕ × Call)
calls =
    (8, sets_stage "a1" "extracting" "")
    ∷ (9, progresses "a1" 10 20)
    ∷ (9, finishes "a1" "completed" "")
    ∷ (12, restarts)
    ∷ []

abbrev started_import : Operations
started_import = set_stage 7 "a1" "downloading" "" imported

ended : (perform_all calls started_import).told ≡ "a1" ∷ "a1" ∷ "a1" ∷ "a1" ∷ []
unfolding perform_all perform clean_stale finish progress set_stage create
ended = refl

perform_all-IsStarted_example : IsStarted "a1" 5 (some 7) (perform_all calls started_import).rows
unfolding find set_stage create
perform_all-IsStarted_example =
    perform_all-IsStarted "a1" 5 7 calls started_import (_, (refl, (refl, refl)))

abbrev done : Operation
done = record {
  id = "b";
  kind = "backup";
  stage = "completed";
  status_message = "";
  bytes_processed = 1;
  total_bytes = 1;
  created_at = 1;
  started_at = some 1;
  last_progress_at = some 2;
  finished_at = some 2;
  error = "";
}

abbrev mixed : Operations
mixed = record { rows = done ∷ started_import.rows; cancels = []; told = [] }
