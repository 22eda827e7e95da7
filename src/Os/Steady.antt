-- ===== src/Os/Steady.antt =====
-- What the calls of a program keep, the program keeps however it ends, also where a call fails: a rule
-- for each way to build code. `Frame` says what is kept.
use mr_lib.Common.{◌≡◌, Bool, true, false, Option, none, some, if◌then◌else◌}
use mr_lib.Os.{Request, Os}
use mr_lib.Os.Io.{
  Io, Outcome, ok, fail, after, pure, need, succeed, ◌>>=◌, ◌then_do◌, Handler, recover,
  syscall_ret, call, ignore,
}
use mr_lib.Os.Lawful.{Lawful, is_transfer, Kept, Kept-refl, Kept-trans, frame-Kept}

-- a relation between a world and a later one that all calls but transfers keep
pub record Frame {W : Type 0} (os : Os W) : Type 1 where
  pub Later : W → W → Type 0
  pub now : (w : W) → Later w w
  pub chain : {u v w : W} → Later u v → Later v w → Later u w
  pub called : (r : Request) → is_transfer r ≡ false → (w : W) → Later w (os.sys r w).1

-- the descriptors and the files
abbrev pub kept_frame : {W : Type 0} {os : Os W} → Lawful os → Frame os
kept_frame law = record {
  Later = Kept law;
  now = Kept-refl law;
  chain = Kept-trans law;
  called = frame-Kept law;
}

module _ {W : Type 0} ⦃os : Os W⦄ (frame : Frame os) where
  open frame use {Later, now, chain, called}

  -- an end with a result or with -1, in a later world
  pub data Settles {A : Type 0} (w : W) : Outcome A × W → Type 0 where
    done : {a : A} {v : W} → Later w v → Settles w (ok a, v)
    refused : {v : W} → Later w v → Settles w (fail, v)

  pub Settles-Later : {A : Type 0} {w : W} {o : Outcome A × W} → Settles w o → Later w o.1
  Settles-Later (done k) = k
  Settles-Later (refused k) = k

  pub record Steady {A : Type 0} (m : Io W A) : Type 0 where
    pub at : (w : W) → Settles w (m w)

  -- the same of a handler
  pub record Steadily (h : Handler W) : Type 0 where
    pub at : (w : W) → Later w (h w)

  Settles-from : {A : Type 0} {u v : W} {o : Outcome A × W} → Later u v → Settles v o → Settles u o
  Settles-from k (done l) = done (chain k l)
  Settles-from k (refused l) = refused (chain k l)

  Settles-after :
      {A B : Type 0} {w : W} {o : Outcome A × W} (f : A → Io W B)
      → Settles w o
      → ((a : A) → Steady (f a))
      → Settles w (after o f)
  Settles-after f (done {a} {v} k) s = Settles-from k ((s a).at v)
  Settles-after f (refused k) s = refused k

  Settles-recover :
      {A : Type 0} {w : W} {o : Outcome A × W} (h : Handler W)
      → Settles w o
      → Steadily h
      → Settles w (recover o h)
  Settles-recover h (done k) s = done k
  Settles-recover h (refused {v} k) s = refused (chain k (s.at v))

  pub Steady-bind :
      {A B : Type 0} (m : Io W A) (f : A → Io W B)
      → Steady m
      → ((a : A) → Steady (f a))
      → Steady (m >>= f)
  unfolding ◌>>=◌
  Steady-bind m f s t = record { at = λ w. Settles-after f (s.at w) t }

  pub Steady-ret :
      {A : Type 0} (m : Io W A) (h : Handler W) → Steady m → Steadily h → Steady (syscall_ret m h)
  unfolding syscall_ret
  Steady-ret m h s t = record { at = λ w. Settles-recover h (s.at w) t }

  pub Steady-pure : {A : Type 0} (a : A) → Steady (pure a)
  unfolding pure
  Steady-pure a = record { at = λ w. done (now w) }

  pub Steady-call : (r : Request) → is_transfer r ≡ false → Steady (call r)
  unfolding call
  Steady-call r h = record { at = λ w. done (called r h w) }

  pub Steady-need : {A : Type 0} (x : Option A) → Steady (need x)
  unfolding need
  Steady-need none = record { at = λ w. refused (now w) }
  Steady-need (some a) = record { at = λ w. done (now w) }

  pub Steady-succeed : (b : Bool) → Steady (succeed b)
  unfolding succeed
  Steady-succeed true = record { at = λ w. done (now w) }
  Steady-succeed false = record { at = λ w. refused (now w) }

  pub Steadily-ignore : {A : Type 0} (m : Io W A) → Steady m → Steadily (ignore m)
  unfolding ignore
  Steadily-ignore m s = record { at = λ w. Settles-Later (s.at w) }

  pub Steadily-nothing : Steadily (λ w. w)
  Steadily-nothing = record { at = λ w. now w }

  pub Steadily-then : (g h : Handler W) → Steadily g → Steadily h → Steadily (g then_do h)
  Steadily-then g h s t = record { at = λ w. chain (s.at w) (t.at (g w)) }

  pub Steady-if :
      {A : Type 0} (b : Bool) (m n : Io W A) → Steady m → Steady n → Steady (if b then m else n)
  Steady-if true m n s t = s
  Steady-if false m n s t = t
