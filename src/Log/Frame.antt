-- ===== src/Log/Frame.antt =====
-- mr_log of src/log.c, and the descriptors and files that it has nothing to do with.
use Prim.Native.String.{String}
use mr_lib.Common.{ℕ, refl, Option, none, some, List, Bytes}
use mr_lib.Os.{Arg, Request, Os}
use mr_lib.Os.Lawful.{Lawful, Kept-refl}
use mr_lib.Os.Io.{pure, call}
use mr_lib.Os.Quiet.{Quiet, Quiet-pure, Quiet-call, quiet_rules}
use mr_lib.Os.Yields.{returns}
use mr_lib.Log.{LogFile, time_text, mr_log}

module _ {W : Type 0} ⦃os : Os W⦄ (law : Lawful os) where
  time_text-Quiet : (t : Option Bytes) → Quiet law (time_text t)
  unfolding time_text pure
  time_text-Quiet none = record { at = λ w. returns (Kept-refl law w) }
  time_text-Quiet (some t) = Quiet-pure law t

  strftime-Quiet : (now : ℕ) → Quiet law (call (Request.strftime now))
  strftime-Quiet now = Quiet-call law (Request.strftime now) refl

  getpid-Quiet : Quiet law (call Request.getpid)
  getpid-Quiet = Quiet-call law Request.getpid refl

  fflush-Quiet : (file : ℕ) → Quiet law (call (Request.fflush file))
  fflush-Quiet file = Quiet-call law (Request.fflush file) refl

  post-Quiet : (sem : ℕ) → Quiet law (call (Request.sem_post sem))
  post-Quiet sem = Quiet-call law (Request.sem_post sem) refl

  pub mr_log-Quiet :
      (log : LogFile) (level pname tname format : String) (args : List Arg)
      → Quiet law (mr_log log level pname tname format args)
  unfolding mr_log
  mr_log-Quiet log level pname tname format args =
      search (quiet_rules, time_text-Quiet, strftime-Quiet, getpid-Quiet, fflush-Quiet, post-Quiet)
        depth 30
