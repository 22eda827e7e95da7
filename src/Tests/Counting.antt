-- ===== src/Tests/Counting.antt =====
-- A world that is the value of a semaphore, and in which no call but a wait fails.
use mr_lib.Common.{ℕ, zero, suc, ◌≡◌, refl, Bool, true, false, none, some, []}
use mr_lib.Os.{Request, Reply, Os}
use mr_lib.Log.{LogFile, mr_log}
use mr_lib.Log.Balance.{Counter, is_semaphore, mr_log-balanced}

abbrev wait : ℕ → Bool × ℕ
wait zero = (false, zero)
wait (suc n) = (true, n)

abbrev answer : (r : Request) → ℕ → Reply r × ℕ
answer (Request.read _ _) v = (none, v)
answer (Request.write _ _) v = (none, v)
answer (Request.malloc _) v = (some 1, v)
answer (Request.realloc _ _) v = (some 1, v)
answer (Request.strdup _) v = (some 1, v)
answer (Request.free _) v = (tt, v)
answer (Request.stat _) v = (none, v)
answer (Request.scandir _) v = (none, v)
answer (Request.fopen _ _) v = (some 1, v)
answer (Request.getline _ buffer) v = ((buffer, none), v)
answer (Request.ferror _) v = (false, v)
answer (Request.fwrite _ _ count _) v = (count, v)
answer (Request.sem_open _) v = (some 1, v)
answer (Request.sem_wait _) v = wait v
answer (Request.sem_post _) v = (true, suc v)
answer Request.time v = (some 0, v)
answer (Request.strftime _) v = (some [], v)
answer Request.getpid v = (1, v)
answer (Request.fprintf _ _ _) v = (true, v)
answer (Request.fputc _ _) v = (true, v)
answer (Request.fflush _) v = (true, v)
answer (Request.fclose _) v = (true, v)
answer (Request.sem_close _) v = (true, v)
answer (Request.sem_unlink _) v = (true, v)

instance abbrev counting_os : Os ℕ
counting_os = record { sys = answer; stale = λ v n. [] }

wait-true : (v : ℕ) → (wait v).0 ≡ true → v ≡ suc (wait v).1
wait-true zero h = cc
wait-true (suc n) h = refl

wait-false : (v : ℕ) → (wait v).0 ≡ false → (wait v).1 ≡ v
wait-false zero h = refl
wait-false (suc n) h = cc

answer-frame : (r : Request) → is_semaphore r ≡ false → (v : ℕ) → (answer r v).1 ≡ v
answer-frame (Request.sem_wait _) h v = cc
answer-frame (Request.sem_post _) h v = cc
answer-frame _ h v = refl

abbrev log : LogFile
log = record { file = 1; sem = 1 }

abbrev counter : Counter counting_os 1
counter = record {
  value = λ v. v;
  waited = wait-true;
  not_waited = wait-false;
  post_succeeds = λ v. refl;
  posted = λ v. refl;
  frame = answer-frame;
}

mr_log_example : ◌≡◌ {A = ℕ} (mr_log {W = ℕ} log "info" "Main" "Main" "started" [] 1).1 1
mr_log_example = mr_log-balanced log counter "info" "Main" "Main" "started" [] 1 (λ v. refl)
