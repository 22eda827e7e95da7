-- ===== src/Os/Quiet.antt =====
-- Code that leaves the descriptors alone, and fails only if a call did: a rule for each way to build
-- such code.
use Prim.Native.String.{String}
use mr_lib.Common.{◌<◌, lt→ltb, ℕ, ◌≡◌, refl, Bool, true, false, Option, List, Bytes, if◌then◌else◌}
use mathlib.Core.Bool.{not}
use mr_lib.Os.{Arg, Request, Reply, Os}
use mr_lib.Os.Io.{Io, pure, ◌>>=◌, need, succeed, Handler, syscall_ret, call}
use mr_lib.Os.Calls
use mr_lib.Os.Lawful.{
  Lawful, is_failure, is_none, is_transfer, Kept, Kept-refl, Kept-trans, frame-Kept, need-Yields,
  succeed-Yields,
}
use mr_lib.Os.Yields
use mr_lib.Os.Yields.{Yields, returns}

module _ {W : Type 0} ⦃os : Os W⦄ (law : Lawful os) where
  open law use {Fault, fault}

  pub record Quiet {A : Type 0} (m : Io W A) : Type 0 where
    pub at : (w : W) → Yields (λ _ w'. Kept law w w') Fault (m w)

  pub Quiet-pure : {A : Type 0} (a : A) → Quiet (pure a)
  unfolding pure
  Quiet-pure a = record { at = λ w. returns (Kept-refl law w) }

  pub Quiet-bind :
      {A B : Type 0} (m : Io W A) (f : A → Io W B)
      → Quiet m
      → ((a : A) → Quiet (f a))
      → Quiet (m >>= f)
  unfolding ◌>>=◌
  Quiet-bind m f qm qf = record {
    at = λ w.
        Yields.bind (qm.at w) λ a w' k. Yields.mono ((qf a).at w') λ _ _ k'. Kept-trans law k k';
  }

  pub Quiet-call : (r : Request) → is_transfer r ≡ false → Quiet (call r)
  unfolding call
  Quiet-call r h = record { at = λ w. returns (frame-Kept law r h w) }

  pub Quiet-if :
      {A : Type 0} (b : Bool) (m n : Io W A) → Quiet m → Quiet n → Quiet (if b then m else n)
  Quiet-if true m n qm qn = qm
  Quiet-if false m n qm qn = qn

  -- a handler may do anything: a failure stays a failure
  pub Quiet-ret : {A : Type 0} (m : Io W A) (h : Handler W) → Quiet m → Quiet (syscall_ret m h)
  unfolding syscall_ret
  Quiet-ret m h q = record { at = λ w. Yields.handle h (q.at w) }

  Quiet-need :
      {A : Type 0} (r : Request)
      → is_transfer r ≡ false
      → (answer : Reply r → Option A)
      → ((x : Reply r) → is_none (answer x) ≡ true → is_failure r x ≡ true)
      → Quiet (call r >>= λ x. need (answer x))
  unfolding ◌>>=◌ call
  Quiet-need r h answer agree = record {
    at = λ w.
        need-Yields law (answer (os.sys r w).0) _ (λ e. fault r w (agree _ e))
          (λ a e. frame-Kept law r h w);
  }

  Quiet-succeed :
      (r : Request)
      → is_transfer r ≡ false
      → (answer : Reply r → Bool) → ((x : Reply r) → not (answer x) ≡ true → is_failure r x ≡ true)
      → Quiet (call r >>= λ x. succeed (answer x))
  unfolding ◌>>=◌ call
  Quiet-succeed r h answer agree = record {
    at = λ w.
        succeed-Yields law (answer (os.sys r w).0) _ (λ e. fault r w (agree _ e))
          (frame-Kept law r h w);
  }

  pub Quiet-malloc : (size : ℕ) → 0 < size → Quiet (Calls.malloc size)
  unfolding Calls.malloc
  Quiet-malloc size h =
      Quiet-need (Request.malloc size) refl (λ x. x) (λ x e. rw (lt→ltb 0 size h, e))

  pub Quiet-realloc : (address size : ℕ) → Quiet (Calls.realloc address size)
  unfolding Calls.realloc
  Quiet-realloc address size = Quiet-need (Request.realloc address size) refl (λ x. x) (λ x e. e)

  pub Quiet-strdup : (s : Bytes) → Quiet (Calls.strdup s)
  unfolding Calls.strdup
  Quiet-strdup s = Quiet-need (Request.strdup s) refl (λ x. x) (λ x e. e)

  pub Quiet-stat : (path : Bytes) → Quiet (Calls.stat path)
  unfolding Calls.stat
  Quiet-stat path = Quiet-need (Request.stat path) refl (λ x. x) (λ x e. e)

  pub Quiet-scandir : (path : Bytes) → Quiet (Calls.scandir path)
  unfolding Calls.scandir
  Quiet-scandir path = Quiet-need (Request.scandir path) refl (λ x. x) (λ x e. e)

  pub Quiet-sem_open : (name : String) → Quiet (Calls.sem_open name)
  unfolding Calls.sem_open
  Quiet-sem_open name = Quiet-need (Request.sem_open name) refl (λ x. x) (λ x e. e)

  pub Quiet-time : Quiet Calls.time
  unfolding Calls.time
  Quiet-time = Quiet-need Request.time refl (λ x. x) (λ x e. e)

  pub Quiet-fprintf :
      (file : ℕ) (format : String) (args : List Arg) → Quiet (Calls.fprintf file format args)
  unfolding Calls.fprintf
  Quiet-fprintf file format args =
      Quiet-succeed (Request.fprintf file format args) refl (λ x. x) (λ x e. e)

  pub Quiet-fputc : (file c : ℕ) → Quiet (Calls.fputc file c)
  unfolding Calls.fputc
  Quiet-fputc file c = Quiet-succeed (Request.fputc file c) refl (λ x. x) (λ x e. e)

  pub Quiet-fclose : (file : ℕ) → Quiet (Calls.fclose file)
  unfolding Calls.fclose
  Quiet-fclose file = Quiet-succeed (Request.fclose file) refl (λ x. x) (λ x e. e)

  pub Quiet-sem_wait : (sem : ℕ) → Quiet (Calls.sem_wait sem)
  unfolding Calls.sem_wait
  Quiet-sem_wait sem = Quiet-succeed (Request.sem_wait sem) refl (λ x. x) (λ x e. e)

  pub Quiet-sem_post : (sem : ℕ) → Quiet (Calls.sem_post sem)
  unfolding Calls.sem_post
  Quiet-sem_post sem = Quiet-succeed (Request.sem_post sem) refl (λ x. x) (λ x e. e)

  pub Quiet-sem_close : (sem : ℕ) → Quiet (Calls.sem_close sem)
  unfolding Calls.sem_close
  Quiet-sem_close sem = Quiet-succeed (Request.sem_close sem) refl (λ x. x) (λ x e. e)

  pub Quiet-sem_unlink : (name : String) → Quiet (Calls.sem_unlink name)
  unfolding Calls.sem_unlink
  Quiet-sem_unlink name = Quiet-succeed (Request.sem_unlink name) refl (λ x. x) (λ x e. e)

pub ruleset quiet_rules = (
  Quiet-pure, Quiet-bind, Quiet-call, Quiet-if, Quiet-ret, Quiet-realloc, Quiet-strdup, Quiet-stat,
  Quiet-scandir, Quiet-sem_open, Quiet-time, Quiet-fprintf, Quiet-fputc, Quiet-fclose,
  Quiet-sem_wait, Quiet-sem_post, Quiet-sem_close, Quiet-sem_unlink,
)
