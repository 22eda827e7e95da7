-- ===== src/Os/Yields.antt =====
-- How a run ends: with a result and a world that are as stated, or with -1 where `F` allows it.
-- It neither trips an assertion nor runs out of fuel.
use mathlib.Core.Path.{subst}
use mr_lib.Common.{◌≡◌, refl, Option, none, some}
use mr_lib.Os.Io.{Outcome, Stop, ok, fail, halt, after, Handler, recover, need}

pub data Yields {A W : Type 0} (Q : A → W → Type 0) (F : Type 0) : Outcome A × W → Type 0 where
  returns : {a : A} {w : W} → Q a w → Yields Q F (ok a, w)
  fails : {w : W} → F → Yields Q F (fail, w)

module _ {A W : Type 0} {P : A → W → Type 0} {F : Type 0} where
  pub bind :
      {B : Type 0} {Q : B → W → Type 0} {o : Outcome A × W} {f : A → W → Outcome B × W}
      → Yields P F o
      → ((a : A) (w : W) → P a w → Yields Q F (f a w))
      → Yields Q F (after o f)
  bind (returns p) next = next _ _ p
  bind (fails e) next = fails e

  pub mono :
      {Q : A → W → Type 0} {o : Outcome A × W}
      → Yields P F o
      → ((a : A) (w : W) → P a w → Q a w)
      → Yields Q F o
  mono (returns p) weaken = returns (weaken _ _ p)
  mono (fails e) weaken = fails e

  -- a handler runs only on a failure, which stays a failure
  pub handle : {o : Outcome A × W} (h : Handler W) → Yields P F o → Yields P F (recover o h)
  handle h (returns p) = returns p
  handle h (fails e) = fails e

  -- where nothing can fail, there is a result
  pub result :
      {o : Outcome A × W} → Yields P F o → ¬ F → (a : A) × (w : W) × (o ≡ (ok a, w)) × P a w
  result (returns p) sound = (_, _, refl, p)
  result (fails e) sound = absurd (sound e)

-- `need`, where it is known why there is no value
pub need_or :
    {A W F : Type 0} (x : Option A) (w : W) → (x ≡ none → F) → Yields (λ _ w'. w' ≡ w) F (need x w)
unfolding need
need_or none w refused = fails (refused refl)
need_or (some a) w refused = returns refl

Result : {A W : Type 0} (Q : A → W → Type 0) → Outcome A × W → Type 0
Result Q (ok a, w) = Q a w
Result Q (fail, w) = Unit
Result Q (halt s, w) = Unit

Yields-Result :
    {A W : Type 0} {Q : A → W → Type 0} {F : Type 0} {o : Outcome A × W} → Yields Q F o → Result Q o
unfolding Result
Yields-Result (returns q) = q
Yields-Result (fails e) = tt

-- a run that is known to return
pub at_result :
    {A W : Type 0} {Q : A → W → Type 0} {F : Type 0} {o : Outcome A × W} {a : A} {w : W}
    → Yields Q F o
    → o ≡ (ok a, w)
    → Q a w
unfolding Result
at_result {A} {W} {Q} y e = subst (Result Q) e (Yields-Result y)

-- a result, if there is one, is as stated
pub data Leaves {A W : Type 0} (Q : A → Type 0) : Outcome A × W → Type 0 where
  left : {a : A} {w : W} → Q a → Leaves Q (ok a, w)
  none_failed : {w : W} → Leaves Q (fail, w)
  none_stopped : {s : Stop} {w : W} → Leaves Q (halt s, w)

pub Leaves-after :
    {A B W : Type 0} {Q : B → Type 0} (o : Outcome A × W) {f : A → W → Outcome B × W}
    → ((a : A) (w : W) → Leaves Q (f a w))
    → Leaves Q (after o f)
Leaves-after (ok a, w) next = next a w
Leaves-after (fail, w) next = none_failed
Leaves-after (halt s, w) next = none_stopped

pub Leaves-Yields :
    {A W : Type 0} {Q : A → W → Type 0} {R : A → Type 0} {F : Type 0} {o : Outcome A × W}
    → Yields Q F o
    → Leaves R o
    → Yields (λ a w. Q a w × R a) F o
Leaves-Yields (returns q) (left r) = returns (q, r)
Leaves-Yields (fails e) r = fails e

pub Yields-Leaves :
    {A B W : Type 0} {Q : A → W → Type 0} {R : B → Type 0} {F : Type 0} {o : Outcome A × W}
    {f : A → W → Outcome B × W}
    → Yields Q F o
    → ((a : A) (w : W) → Q a w → Leaves R (f a w))
    → Leaves R (after o f)
Yields-Leaves (returns q) next = next _ _ q
Yields-Leaves (fails e) next = none_failed
