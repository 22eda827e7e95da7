-- ===== src/Tests/Cleanup.antt =====
-- A world that is the set of the blocks that have been freed, and the job of the word count in it.
use mr_lib.Common.{
  ℕ, ◌≡◌, refl, ap, ◌∙◌, inl, inr, Bool, true, false, none, some, [], ◌==◌, ==_refl, Bool-cases,
}
use mr_lib.Os.{Request, Reply, Os}
use mr_lib.Os.Io.{Io, failed}
use mr_lib.Os.Lawful.{update}
use mr_lib.Log.{LogFile}
use mr_lib.Attr.{Mr, default_log_file}
use mr_lib.Process.{Status, Processes}
use mr_lib.Process.Waiting.{Answers}
use mr_lib.WordCount.Results.{Stdio}
use mr_lib.WordCount.Main.{Usage, Fuel, run_job}
use mr_lib.WordCount.Main.Cleanup.{Blocks, BothFreed, run_job-BothFreed}
use mr_lib.Tests.Calm.{calm, calm-same}
use mr_lib.Process as Posix

record Heap : Type 0 where
  freed : ℕ → Bool

abbrev heap_answer : (r : Request) → Heap → Reply r × Heap
heap_answer (Request.free p) w = (tt, record { freed = update p true w.freed })
heap_answer r w = calm r w

instance abbrev heap_os : Os Heap
heap_os = record { sys = heap_answer; stale = λ w n. [] }

abbrev process_answer : (r : Posix.Request) → Heap → Posix.Reply r × Heap
process_answer Posix.fork w = (some 10, w)
process_answer Posix.pipe w = (none, w)
process_answer (Posix.close fd) w = (true, w)
process_answer (Posix.dup2 from to) w = (true, w)
process_answer (Posix.kill _) w = (true, w)
process_answer (Posix.waitpid pid) w = (some (Status.exited 0), w)

instance abbrev heap_processes : Processes Heap
heap_processes = record { sys = process_answer }

heap_stays :
    (p : ℕ) (r : Request) (w : Heap) → w.freed p ≡ true → (heap_answer r w).1.freed p ≡ true
heap_stays p (Request.free other) w h = elim (Bool-cases (other == p)) [
  | inl e ↦ rw e refl
  | inr e ↦ rw (e, h) refl
]
heap_stays p r w h = ap (λ (v : Heap). v.freed p) (calm-same r w) ∙ h

abbrev blocks : Blocks heap_os
blocks = record {
  Freed = λ p w. w.freed p ≡ true;
  frees = λ p w. rw (==_refl p) refl;
  stays = heap_stays;
}

abbrev silent : Stdio Heap
silent = record {
  fread = λ file n w. (none, w);
  fseek = λ file n w. w;
  printf = λ format args w. w;
  perror = λ message w. w;
}

abbrev no_usage : Usage Heap
no_usage = record { eprintf = λ format args w. w }

abbrev fuel : Fuel
fuel = record { send = 5; receive = 5; print = 5 }

abbrev child : Mr → LogFile → Io Heap (Unit {0})
child mr log_file = failed

abbrev job : Mr
job = record {
  address = 3;
  attr = record {
    mapper_threads = 4;
    reducer_threads = 4;
    queue_size = 100;
    log_file = some default_log_file;
  };
  log_file_address = 4;
  mapper = 1;
  reducer = 2;
  user_arg = 0;
}

abbrev nothing_freed : Heap
nothing_freed = record { freed = λ p. false }

run_job-BothFreed_example :
    Answers
      (BothFreed blocks job)
      (λ _. BothFreed blocks job)
      (run_job silent no_usage fuel child child job job.attr [] [] nothing_freed)
run_job-BothFreed_example =
    run_job-BothFreed blocks silent no_usage fuel child child job job.attr [] [] nothing_freed
