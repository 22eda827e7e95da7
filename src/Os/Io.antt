-- ===== src/Os/Io.antt =====
-- Code that makes calls of the system: a result beside the next world. `fail` is the return of -1
-- (of EXIT_FAILURE in a function that returns an exit code). A failed assertion and a loop whose
-- fuel is used up stop the run, and so do a call that C leaves undefined and `_exit`. `syscall_ret` and
-- `syscall_exit` are the macros of src/utils.h.
use mr_lib.Common.{ℕ, Bool, true, false, Option, none, some}
use mr_lib.Os.{Request, Reply, Os}

pub data Stop : Type 0 where
  assertion out_of_fuel undefined : Stop
  exited : (code : ℕ) → Stop

pub data Outcome (A : Type 0) : Type 0 where
  ok : A → Outcome A
  fail : Outcome A
  halt : Stop → Outcome A

abbrev pub Io : Type 0 → Type 0 → Type 0
Io W A = W → Outcome A × W

abbrev pub after : {A B W : Type 0} → Outcome A × W → (A → W → Outcome B × W) → Outcome B × W
after (ok a, w) f = f a w
after (fail, w) f = (fail, w)
after (halt s, w) f = (halt s, w)

unfoldable pub pure : {A W : Type 0} → A → Io W A
pure a w = (ok a, w)

unfoldable pub failed : {A W : Type 0} → Io W A
failed w = (fail, w)

infixl 5 ◌>>=◌ ◌>>◌
unfoldable pub ◌>>=◌ : {A B W : Type 0} → Io W A → (A → Io W B) → Io W B
◌>>=◌ m f w = after (m w) f

abbrev pub ◌>>◌ : {A B W : Type 0} → Io W A → Io W B → Io W B
m >> k = m >>= λ _. k

unfoldable pub need : {A W : Type 0} → Option A → Io W A
need (some a) w = (ok a, w)
need none w = (fail, w)

unfoldable pub succeed : {W : Type 0} → Bool → Io W (Unit {0})
succeed true w = (ok tt, w)
succeed false w = (fail, w)

unfoldable pub assert : {W : Type 0} → Bool → Io W (Unit {0})
assert true w = (ok tt, w)
assert false w = (halt Stop.assertion, w)

-- A handler: what an error path does before it returns. Results of its calls are not looked at.
abbrev pub Handler : Type 0 → Type 0
Handler W = W → W

abbrev pub no_handler : {W : Type 0} → Handler W
no_handler w = w

infixr 5 ◌then_do◌
abbrev pub ◌then_do◌ : {W : Type 0} → Handler W → Handler W → Handler W
(f then_do g) w = g (f w)

abbrev pub recover : {A W : Type 0} → Outcome A × W → Handler W → Outcome A × W
recover (ok a, w) h = (ok a, w)
recover (fail, w) h = (fail, h w)
recover (halt s, w) h = (halt s, w)

-- `if ((result = (expression)) == -1) { command; return -1; }`
unfoldable pub syscall_ret : {A W : Type 0} → Io W A → Handler W → Io W A
syscall_ret m h w = recover (m w) h

-- the same with EXIT_FAILURE for -1
unfoldable pub syscall_exit : {A W : Type 0} → Io W A → Handler W → Io W A
syscall_exit m h w = recover (m w) h

module _ {W : Type 0} ⦃os : Os W⦄ where
  unfoldable pub call : (r : Request) → Io W (Reply r)
  call r w = (ok (os.sys r w).0, (os.sys r w).1)

  unfoldable pub ignore : {A : Type 0} → Io W A → Handler W
  ignore m w = (m w).1

  unfoldable pub free : ℕ → Handler W
  free address w = (os.sys (Request.free address) w).1
