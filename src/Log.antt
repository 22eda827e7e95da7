-- ===== src/Log.antt =====
-- src/log.c and src/log.h: messages to one file, in turn by a named semaphore.
-- Asserted pointers are arguments here, so a log is open where it is passed.
pub mod Balance
pub mod Frame
pub mod Steady
use Prim.Native.String.{String}
use mr_lib.Common.{
  ℕ, Bool, true, false, Option, none, some, List, [], ◌∷◌, Bytes, take, ◌==◌, if◌then◌else◌,
}
use mr_lib.Os.{Arg, Request, Os}
use mr_lib.Os.Io.{Io, pure, ◌>>=◌, ◌>>◌, Handler, no_handler, ◌then_do◌, syscall_ret, call, ignore}
use mr_lib.Os.Calls

pub record LogFile : Type 0 where
  pub file : ℕ
  pub sem : ℕ

abbrev pub sem_name : String
sem_name = "/mr_log_sem"

-- a C string in a buffer: the bytes in front of the first zero
unfoldable pub c_string : Bytes → Bytes
c_string [] = []
c_string (b ∷ bs) = if b == 0 then [] else b ∷ c_string bs

module _ {W : Type 0} ⦃os : Os W⦄ where
  unfoldable pub mr_log_init : Bytes → Io W LogFile
  mr_log_init log_file_path = do
    file ← Calls.fopen log_file_path "a"
    sem ← syscall_ret (Calls.sem_open sem_name) (ignore (Calls.fclose file))
    pure (record { file = file; sem = sem })

  -- `time_buf`; when `strftime` fails only its last byte is set
  time_text : Option Bytes → Io W Bytes
  unfolding c_string
  time_text (some t) = pure t
  time_text none = λ w. pure (c_string (take 63 (os.stale w 64))) w

  -- The default build, with a time stamp in front. When `fflush` fails, the semaphore is posted and
  -- the function goes on.
  unfoldable pub mr_log : LogFile → (level pname tname format : String) → List Arg → Io W (Unit {0})
  unfolding time_text
  mr_log log level pname tname format args = do
    let post = ignore (Calls.sem_post log.sem)
    syscall_ret (Calls.sem_wait log.sem) no_handler
    now ← syscall_ret Calls.time post
    time_buf ← time_text (← call (Request.strftime now))
    pid ← call Request.getpid
    syscall_ret
        (Calls.fprintf log.file "%s %s[%d] %s %s: " (
          Arg.bytes time_buf ∷ Arg.text pname ∷ Arg.num pid ∷ Arg.text tname ∷ Arg.text level ∷ []))
        post
    syscall_ret (Calls.fprintf log.file format args) post
    syscall_ret (Calls.fputc log.file b'\n') post
    flushed ← call (Request.fflush log.file)
    if flushed then pure true else call (Request.sem_post log.sem)
    syscall_ret (Calls.sem_post log.sem) no_handler
    pure tt

  abbrev pub mr_log_info : LogFile → (pname tname format : String) → List Arg → Io W (Unit {0})
  mr_log_info log = mr_log log "info"

  -- results of warnings and errors are not looked at
  abbrev pub mr_log_warning : LogFile → (pname tname format : String) → List Arg → Handler W
  mr_log_warning log pname tname format args = ignore (mr_log log "warning" pname tname format args)

  abbrev pub mr_log_error : LogFile → (pname tname format : String) → List Arg → Handler W
  mr_log_error log pname tname format args = ignore (mr_log log "error" pname tname format args)

  unfoldable pub mr_log_destroy : LogFile → Io W (Unit {0})
  mr_log_destroy log = do
    let unlink = ignore (Calls.sem_unlink sem_name)
    let close = ignore (Calls.sem_close log.sem)
    syscall_ret (Calls.fclose log.file) (close then_do unlink)
    syscall_ret (Calls.sem_close log.sem) unlink
    syscall_ret (Calls.sem_unlink sem_name) no_handler
    pure tt
