-- ===== src/WordCount/Main/Cleanup.antt =====
-- What main of src/examples/word_count/main.c has freed when it ends.
use mr_lib.Common.{ℕ, zero, suc, some, none, Option, Bytes}
use mr_lib.Os.{Request, Os}
use mr_lib.Os.Io.{Io, Outcome, ok, fail, halt, Handler, pure, ◌>>=◌, syscall_exit, free, ◌then_do◌}
use mr_lib.Log.{LogFile}
use mr_lib.Attr.{Attr, Mr, mr_attr_destroy, mr_cleanup, mr_destroy}
use mr_lib.Process.{Processes}
use mr_lib.Process.Waiting.{Answers, result, refusal, stop, Answers-bind, Answers-handle, anything}
use mr_lib.WordCount.Results.{Stdio, print_file, print_entries, print_results, next_turn}
use mr_lib.WordCount.Main.{attr_gone, Usage, Fuel, run_job}

-- `Freed p w`: by the world `w`, `free` has been called for this block. No call takes that back.
pub record Blocks {W : Type 0} (os : Os W) : Type 1 where
  pub Freed : ℕ → W → Type 0
  pub frees : (p : ℕ) (w : W) → Freed p (os.sys (Request.free p) w).1
  pub stays : (p : ℕ) (r : Request) (w : W) → Freed p w → Freed p (os.sys r w).1

-- printing the results is not reported as a failure
abbrev NotRefused : {A W : Type 0} → Outcome A × W → Type 0
NotRefused o = Answers (λ _. ⊥) (λ _ _. Unit {0}) o

next_turn-NotRefused :
    {W : Type 0} (o : Outcome (Unit {0}) × W) (again : Io W (Unit {0}))
    → ((w : W) → NotRefused (again w))
    → NotRefused (next_turn o again)
next_turn-NotRefused (ok a, w) again more = more w
next_turn-NotRefused (fail, w) again more = result tt
next_turn-NotRefused (halt r, w) again more = stop

module _ {W : Type 0} ⦃os : Os W⦄ (stdio : Stdio W) where
  print_entries-NotRefused : (fuel f : ℕ) (w : W) → NotRefused (print_entries stdio fuel f w)
  unfolding print_entries
  print_entries-NotRefused zero f w = stop
  print_entries-NotRefused (suc fuel) f w =
      next_turn-NotRefused _ _ λ u. print_entries-NotRefused fuel f u

  print_file-NotRefused : (fuel : ℕ) (f : Option ℕ) (w : W) → NotRefused (print_file stdio fuel f w)
  unfolding print_file ◌>>=◌ pure
  print_file-NotRefused fuel none w = result tt
  print_file-NotRefused fuel (some f) w =
      Answers-bind (print_entries-NotRefused fuel f _) λ _ u _. result tt

  print_results-NotRefused :
      (fuel : ℕ) (path : Bytes) (w : W) → NotRefused (print_results stdio fuel path w)
  unfolding print_results
  print_results-NotRefused fuel path w = print_file-NotRefused fuel _ _

never_refused :
    {A W : Type 0} {F : W → Type 0} {o : Outcome A × W}
    → NotRefused o
    → Answers F (λ _ _. Unit {0}) o
never_refused (result q) = result q
never_refused (refusal bad) = absurd bad
never_refused stop = stop

module _ {W : Type 0} ⦃os : Os W⦄ ⦃processes : Processes W⦄ (blocks : Blocks os) where
  open blocks use {Freed, frees, stays}

  -- both blocks of a job
  abbrev pub BothFreed : Mr → W → Type 0
  BothFreed mr w = Freed mr.log_file_address w × Freed mr.address w

  mr_destroy-BothFreed : (mr : Mr) (w : W) → BothFreed mr (mr_destroy (some mr) w)
  unfolding mr_destroy mr_cleanup free
  mr_destroy-BothFreed mr w = (
    stays mr.log_file_address (Request.free mr.address) _ (frees mr.log_file_address w),
    frees mr.address _,
  )

  freeing :
      {A : Type 0} (mr : Mr) (attr : Attr) (m : Io W A) (h : Handler W) (w : W)
      → Answers
          (BothFreed mr)
          (λ _ _. Unit {0})
          (syscall_exit m
            (h then_do mr_destroy (some mr) then_do attr_gone (mr_attr_destroy (some attr)))
            w)
  unfolding syscall_exit
  freeing mr attr m h w = Answers-handle _ (λ v _. mr_destroy-BothFreed mr (h v)) (anything (m w))

  module _ (stdio : Stdio W) (usage : Usage W) (fuel : Fuel)
      (mapper_main reducer_main : Mr → LogFile → Io W (Unit {0})) where
    -- Once the job has been made, main returns, with EXIT_SUCCESS or with EXIT_FAILURE, only when it has
    -- freed both blocks of the job, whatever the job and the printing of its results come to.
    pub run_job-BothFreed :
        (mr : Mr) (attr : Attr) (input_path output_path : Bytes) (w : W)
        → Answers
            (BothFreed mr)
            (λ _. BothFreed mr)
            (run_job stdio usage fuel mapper_main reducer_main mr attr input_path output_path w)
    unfolding run_job ◌>>=◌ pure
    run_job-BothFreed mr attr input_path output_path w =
        Answers-bind (freeing mr attr _ _ _) λ _ u _.
          Answers-bind (never_refused (print_results-NotRefused stdio fuel.print output_path _))
            λ _ v _. result (mr_destroy-BothFreed mr v)
