-- ===== src/Process.antt =====
-- Processes and pipes, for src/core.c: the calls that it makes of POSIX, as a second parameter beside
-- `Os`, and what its error paths are made of.
pub mod Calls
pub mod Spawn
pub mod Main
pub mod Wiring
pub mod Children
pub mod Waiting
use mr_lib.Common.{ℕ, Bool, Option}
use mr_lib.Os.Io.{Io, Outcome, ok, fail, halt, Stop, Handler}

pub data Request : Type 0 where
  fork pipe : Request
  close : (fd : ℕ) → Request
  dup2 : (from to : ℕ) → Request
  kill : (pid : ℕ) → Request
  waitpid : (pid : ℕ) → Request

-- how a process ended: with an exit code, by a signal, or otherwise
pub data Status : Type 0 where
  exited signaled : ℕ → Status
  other : Status

-- the two descriptors of a pipe
pub record Pipe : Type 0 where
  pub read_end : ℕ
  pub write_end : ℕ

-- `none` and `false` are -1. `fork` answers 0 in the child, where the world is the one that the child
-- sees, and a process in the parent; the signal of `kill` is SIGTERM.
abbrev pub Reply : Request → Type 0
Reply Request.fork = Option ℕ
Reply Request.pipe = Option Pipe
Reply (Request.close _) = Bool
Reply (Request.dup2 _ _) = Bool
Reply (Request.kill _) = Bool
Reply (Request.waitpid _) = Option Status

pub record Processes (W : Type 0) : Type 0 where
  pub sys : (r : Request) → W → Reply r × W

-- EXIT_FAILURE
abbrev pub exit_failure : ℕ
exit_failure = 1

-- a failure that is handled and then ends the process
abbrev pub leave_on_failure : {A W : Type 0} → Outcome A × W → Handler W → Outcome A × W
leave_on_failure (ok a, w) h = (ok a, w)
leave_on_failure (fail, w) h = (halt (Stop.exited exit_failure), h w)
leave_on_failure (halt s, w) h = (halt s, w)

-- `SYSCALL_RET_CHECK(expression, { command; _exit(EXIT_FAILURE); })`
unfoldable pub or_exit : {A W : Type 0} → Io W A → Handler W → Io W A
or_exit m h w = leave_on_failure (m w) h

-- `_exit(main(...))`
abbrev pub leave : {A B W : Type 0} → Outcome A × W → Outcome B × W
leave (ok a, w) = (halt (Stop.exited 0), w)
leave (fail, w) = (halt (Stop.exited exit_failure), w)
leave (halt s, w) = (halt s, w)

unfoldable pub exit_with : {A B W : Type 0} → Io W A → Io W B
exit_with main w = leave (main w)
