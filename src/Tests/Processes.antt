-- ===== src/Tests/Processes.antt =====
-- A world that is the descriptor table of a process and the set of the children waited for, in which
-- every call on descriptors succeeds.
use mr_lib.Common.{
  ℕ, ◌≡◌, refl, Bool, true, false, Option, none, some, [], ◌==◌, if◌then◌else◌, ◌∙◌, ap, inl, inr,
  Bool-cases, leb, ◌-◌, ==_refl,
}
use mr_lib.Os.{Os}
use mr_lib.Os.Lawful.{update}
use mr_lib.Log.{LogFile}
use mr_lib.Process.{Pipe, Status, Processes}
use mr_lib.Process.Spawn.{Pipes}
use mr_lib.Process.Main.{Pids, exchange, serve}
use mr_lib.Process.Wiring.{
  End, main_to_mapper_read, main_to_mapper_write, mapper_to_reducer_read, mapper_to_reducer_write,
  reducer_to_main_read, reducer_to_main_write, Wiring,
}
use mr_lib.Process.Waiting.{Children, Answers, BothWaited, exchange-Waited, serve-Waited}
use mr_lib.Tests.Calm.{calm, calm-same}
use mr_lib.Process as Posix

record Table : Type 0 where
  ends : ℕ → Option End
  reaped : ℕ → Bool

instance abbrev table_os : Os Table
table_os = record { sys = calm; stale = λ w n. [] }

abbrev process_answer : (r : Posix.Request) → Table → Posix.Reply r × Table
process_answer Posix.fork w = (some 10, w)
process_answer Posix.pipe w = (none, w)
process_answer (Posix.close fd) w =
    (true, record { ends = update fd none w.ends; reaped = w.reaped })
process_answer (Posix.dup2 from to) w =
    (true, record { ends = update to (w.ends from) w.ends; reaped = w.reaped })
process_answer (Posix.kill _) w = (true, w)
process_answer (Posix.waitpid pid) w =
    (some (Status.exited 0), record { ends = w.ends; reaped = update pid true w.reaped })

instance abbrev table_processes : Processes Table
table_processes = record { sys = process_answer }

abbrev wiring : Wiring table_os table_processes
wiring = record {
  table = λ w. w.ends;
  table_os = λ r w. ap (λ (v : Table). v.ends) (calm-same r w);
  closed = λ fd w h. refl;
  duplicated = λ from to w h. refl;
}

stays_reaped :
    (pid : ℕ) (r : Posix.Request) (w : Table)
    → w.reaped pid ≡ true
    → (process_answer r w).1.reaped pid ≡ true
stays_reaped pid Posix.fork w h = h
stays_reaped pid Posix.pipe w h = h
stays_reaped pid (Posix.close fd) w h = h
stays_reaped pid (Posix.dup2 from to) w h = h
stays_reaped pid (Posix.kill other) w h = h
stays_reaped pid (Posix.waitpid other) w h = elim (Bool-cases (other == pid)) [
  | inl e ↦ rw e refl
  | inr e ↦ rw (e, h) refl
]

abbrev children : Children table_os table_processes
children = record {
  Waited = λ pid w. w.reaped pid ≡ true;
  waits = λ pid w. rw (==_refl pid) refl;
  stays_os = λ pid r w h. ap (λ (v : Table). v.reaped pid) (calm-same r w) ∙ h;
  stays = stays_reaped;
}

abbrev pipes : Pipes
pipes = record {
  main_to_mapper = record { read_end = 3; write_end = 4 };
  mapper_to_reducer = record { read_end = 5; write_end = 6 };
  reducer_to_main = record { read_end = 7; write_end = 8 };
}

abbrev log_file : LogFile
log_file = record { file = 1; sem = 1 }

abbrev pids : Pids
pids = record { mapper_pid = 10; reducer_pid = 11 }

-- the descriptors of `pipes`, counted without a gap
abbrev rank : ℕ → ℕ
rank fd = if leb 2 fd then fd - 1 else fd

-- behind the three calls of `pipe`
abbrev opened : Table
opened = record {
  ends = update 3 (some main_to_mapper_read) (
      update 4 (some main_to_mapper_write) (
        update 5 (some mapper_to_reducer_read) (
          update 6 (some mapper_to_reducer_write) (
            update 7 (some reducer_to_main_read)
              (update 8 (some reducer_to_main_write) (λ fd. none))))));
  reaped = λ pid. false;
}

exchange-Waited_example :
    Answers
      (BothWaited children pids)
      (λ _ _. Unit {0})
      (exchange 5 5 log_file pipes pids [] [] opened)
exchange-Waited_example = exchange-Waited children 5 5 log_file pipes pids [] [] opened

serve-Waited_example :
    Answers
      (children.Waited 10)
      (λ _. BothWaited children pids)
      (serve 5 5 log_file pipes pids [] [] opened)
serve-Waited_example = serve-Waited children 5 5 log_file pipes pids [] [] opened
