-- ===== src/Log/Balance.antt =====
-- The value of the semaphore of the log over a call of mr_log of src/log.c. When flushing fails, the
-- function posts it a second time.
use Prim.Native.String.{String}
use mr_lib.Common.{
  ℕ, suc, ◌≡◌, refl, ap, sym, ◌∙◌, ◌⊎◌, inl, inr, Bool, true, false, Option, none, some, List, [],
  ◌∷◌, Bytes, Bool-cases, if◌then◌else◌,
}
use mr_lib.Os.{Arg, Request, Reply, Os}
use mr_lib.Os.Io.{
  Io, ok, fail, ◌>>◌, pure, need, succeed, ◌>>=◌, no_handler, syscall_ret, call, ignore,
}
use mr_lib.Os.Calls
use mr_lib.Log.{LogFile, time_text, mr_log}

-- the requests on a semaphore
abbrev pub is_semaphore : Request → Bool
is_semaphore (Request.sem_wait _) = true
is_semaphore (Request.sem_post _) = true
is_semaphore _ = false

-- The value of the semaphore of the log, which only waits and posts change. A wait may fail, and a post
-- on an open semaphore that is not at its greatest value does not.
pub record Counter {W : Type 0} (os : Os W) (sem : ℕ) : Type 0 where
  pub value : W → ℕ
  pub waited :
      (w : W)
      → (os.sys (Request.sem_wait sem) w).0 ≡ true
      → value w ≡ suc (value (os.sys (Request.sem_wait sem) w).1)
  pub not_waited :
      (w : W)
      → (os.sys (Request.sem_wait sem) w).0 ≡ false
      → value (os.sys (Request.sem_wait sem) w).1 ≡ value w
  pub post_succeeds : (w : W) → (os.sys (Request.sem_post sem) w).0 ≡ true
  pub posted : (w : W) → value (os.sys (Request.sem_post sem) w).1 ≡ suc (value w)
  pub frame : (r : Request) → is_semaphore r ≡ false → (w : W) → value (os.sys r w).1 ≡ value w

module _ {W : Type 0} ⦃os : Os W⦄ (log : LogFile) (counter : Counter os log.sem) where
  open counter use {value, waited, not_waited, post_succeeds, posted, frame}

  -- code that gives the semaphore back once, however it ends
  record Gives {A : Type 0} (m : Io W A) : Type 0 where
    at : (w : W) → value (m w).1 ≡ suc (value w)

  succeed_world : (b : Bool) (w : W) → (succeed b w).1 ≡ w
  unfolding succeed
  succeed_world true w = refl
  succeed_world false w = refl

  -- the handler of a failed call
  post_handler : (w : W) → value (ignore (Calls.sem_post log.sem) w) ≡ suc (value w)
  unfolding ignore Calls.sem_post ◌>>=◌ call
  post_handler w = ap value (succeed_world (os.sys (Request.sem_post log.sem) w).0 _) ∙ posted w

  -- a call that may fail, with a post as its handler, before such code
  tested :
      {A B : Type 0} (r : Request) (answer : Reply r → Io W A) (f : A → Io W B)
      → is_semaphore r ≡ false
      → ((x : Reply r) (w : W) → ((a : A) × (answer x w ≡ (ok a, w))) ⊎ (answer x w ≡ (fail, w)))
      → ((a : A) → Gives (f a))
      → Gives (syscall_ret (call r >>= answer) (ignore (Calls.sem_post log.sem)) >>= f)
  unfolding ◌>>=◌ call syscall_ret
  tested r answer f other cases g = record {
    at = λ w. elim (cases (os.sys r w).0 (os.sys r w).1) [
      | inl (a, e) ↦ rw e ((g a).at (os.sys r w).1 ∙ ap suc (frame r other w))
      | inr e ↦ rw e (post_handler (os.sys r w).1 ∙ ap suc (frame r other w))
    ];
  }

  need-cases :
      {A : Type 0} (x : Option A) (w : W)
      → ((a : A) × (need x w ≡ (ok a, w))) ⊎ (need x w ≡ (fail, w))
  unfolding need
  need-cases none w = inr refl
  need-cases (some a) w = inl (a, refl)

  succeed-cases :
      (x : Bool) (w : W) → ((a : Unit {0}) × (succeed x w ≡ (ok a, w))) ⊎ (succeed x w ≡ (fail, w))
  unfolding succeed
  succeed-cases false w = inr refl
  succeed-cases true w = inl (tt, refl)

  called :
      {B : Type 0} (r : Request) (f : Reply r → Io W B)
      → is_semaphore r ≡ false
      → ((x : Reply r) → Gives (f x))
      → Gives (call r >>= f)
  unfolding ◌>>=◌ call
  called r f other g = record {
    at = λ w. (g (os.sys r w).0).at (os.sys r w).1 ∙ ap suc (frame r other w);
  }

  formatted :
      {B : Type 0} (t : Option Bytes) (f : Bytes → Io W B)
      → ((x : Bytes) → Gives (f x))
      → Gives (time_text t >>= f)
  unfolding ◌>>=◌ time_text pure
  formatted none f g = record { at = λ w. (g _).at w }
  formatted (some t) f g = record { at = λ w. (g t).at w }

  -- the end of a message, where flushing succeeds
  flushed_end :
      (file : ℕ)
      → ((w : W) → (os.sys (Request.fflush file) w).0 ≡ true)
      → Gives (do
        flushed ← call (Request.fflush file)
        if flushed then pure true else call (Request.sem_post log.sem)
        syscall_ret (Calls.sem_post log.sem) no_handler
        pure tt)
  unfolding ◌>>=◌ call pure syscall_ret Calls.sem_post succeed
  flushed_end file flushes = record {
    at = λ w.
        let w₁ = (os.sys (Request.fflush file) w).1 in
        rw (flushes w, post_succeeds w₁) (posted w₁ ∙ ap suc (frame (Request.fflush file) refl w));
  }

  waited_first :
      (f : Unit {0} → Io W (Unit {0}))
      → Gives (f tt)
      → (w : W) → value ((syscall_ret (Calls.sem_wait log.sem) no_handler >>= f) w).1 ≡ value w
  unfolding ◌>>=◌ call syscall_ret Calls.sem_wait succeed
  waited_first f g w = elim (Bool-cases (os.sys (Request.sem_wait log.sem) w).0) [
    | inl e ↦ rw e (g.at (os.sys (Request.sem_wait log.sem) w).1 ∙ sym (waited w e))
    | inr e ↦ rw e (not_waited w e)
  ]

  -- Where posts and flushing the log do not fail, the semaphore has after a message the value it had
  -- before, whichever other call fails.
  pub mr_log-balanced :
      (level pname tname format : String) (args : List Arg) (w : W)
      → ((v : W) → (os.sys (Request.fflush log.file) v).0 ≡ true)
      → value (mr_log log level pname tname format args w).1 ≡ value w
  unfolding mr_log Calls.time Calls.fprintf Calls.fputc
  mr_log-balanced level pname tname format args w flushes =
      waited_first _
        (tested Request.time need _ refl need-cases λ now. called (Request.strftime now) _ refl λ t.
          formatted t _ λ time_buf. called Request.getpid _ refl λ pid.
            tested
              (Request.fprintf log.file "%s %s[%d] %s %s: " (
                Arg.bytes time_buf
                ∷ Arg.text pname
                ∷ Arg.num pid
                ∷ Arg.text tname
                ∷ Arg.text level
                ∷ []))
              succeed _ refl succeed-cases
              λ _. tested (Request.fprintf log.file format args) succeed _ refl succeed-cases λ _.
                tested (Request.fputc log.file b'\n') succeed _ refl succeed-cases
                  λ _. flushed_end log.file flushes)
        w
