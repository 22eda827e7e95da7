-- ===== src/Log/Steady.antt =====
-- mr_log of src/log.c, and what all its calls keep, on every way out.
use Prim.Native.String.{String}
use mr_lib.Common.{ℕ, refl, Option, none, some, List, Bytes}
use mr_lib.Os.{Arg, Request, Os}
use mr_lib.Os.Io.{pure, call}
use mr_lib.Os.Calls
use mr_lib.Os.Steady.{
  Frame, done, Steady, Steady-bind, Steady-ret, Steady-pure, Steady-call, Steady-need,
  Steady-succeed, Steadily-ignore, Steadily-nothing, Steady-if,
}
use mr_lib.Log.{LogFile, time_text, mr_log}

module _ {W : Type 0} ⦃os : Os W⦄ (frame : Frame os) where
  sem_wait-Steady : (sem : ℕ) → Steady frame (Calls.sem_wait sem)
  unfolding Calls.sem_wait
  sem_wait-Steady sem =
      Steady-bind frame _ _ (Steady-call frame (Request.sem_wait sem) refl) (Steady-succeed frame)

  sem_post-Steady : (sem : ℕ) → Steady frame (Calls.sem_post sem)
  unfolding Calls.sem_post
  sem_post-Steady sem =
      Steady-bind frame _ _ (Steady-call frame (Request.sem_post sem) refl) (Steady-succeed frame)

  time-Steady : Steady frame Calls.time
  unfolding Calls.time
  time-Steady = Steady-bind frame _ _ (Steady-call frame Request.time refl) (Steady-need frame)

  fprintf-Steady :
      (file : ℕ) (format : String) (args : List Arg) → Steady frame (Calls.fprintf file format args)
  unfolding Calls.fprintf
  fprintf-Steady file format args =
      Steady-bind frame _ _ (Steady-call frame (Request.fprintf file format args) refl)
        (Steady-succeed frame)

  fputc-Steady : (file c : ℕ) → Steady frame (Calls.fputc file c)
  unfolding Calls.fputc
  fputc-Steady file c =
      Steady-bind frame _ _ (Steady-call frame (Request.fputc file c) refl) (Steady-succeed frame)

  time_text-Steady : (t : Option Bytes) → Steady frame (time_text t)
  unfolding time_text pure
  time_text-Steady none = record { at = λ w. done (frame.now w) }
  time_text-Steady (some t) = Steady-pure frame t

  strftime-Steady : (now : ℕ) → Steady frame (call (Request.strftime now))
  strftime-Steady now = Steady-call frame (Request.strftime now) refl

  getpid-Steady : Steady frame (call Request.getpid)
  getpid-Steady = Steady-call frame Request.getpid refl

  fflush-Steady : (file : ℕ) → Steady frame (call (Request.fflush file))
  fflush-Steady file = Steady-call frame (Request.fflush file) refl

  post-Steady : (sem : ℕ) → Steady frame (call (Request.sem_post sem))
  post-Steady sem = Steady-call frame (Request.sem_post sem) refl

  pub mr_log-Steady :
      (log : LogFile) (level pname tname format : String) (args : List Arg)
      → Steady frame (mr_log log level pname tname format args)
  unfolding mr_log
  mr_log-Steady log level pname tname format args =
      search
        (
          Steady-bind, Steady-ret, Steady-pure, Steady-if, Steadily-ignore, Steadily-nothing,
          sem_wait-Steady, sem_post-Steady, time-Steady, fprintf-Steady, fputc-Steady,
          time_text-Steady, strftime-Steady, getpid-Steady, fflush-Steady, post-Steady,
        )
        depth 30
