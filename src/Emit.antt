-- ===== src/Emit.antt =====
-- mapper_emit of src/mapper.c and reducer_emit of src/reducer.c: what the functions of the user call
-- to send a pair or a result, one worker at a time by a mutex. The counter that the mutex guards stands
-- beside the world.
pub mod Laws
pub mod Alone
use Prim.Native.String.{String}
use mr_lib.Common.{ℕ, ◌+◌, ◌%◌, size_limit, Bool, true, false, [], Bytes, if◌then◌else◌}
use mr_lib.Os.{Os}
use mr_lib.Os.Io.{Io, Outcome, ok, fail, halt}
use mr_lib.Log.{LogFile, mr_log_error}
use mr_lib.Protocol.Ends.{send_pair_to_reducer, send_result_to_main}

abbrev pub Counted : Type 0 → Type 0
Counted W = ℕ × W

-- the calls on the mutex; while a thread waits for it the others run
pub record Mutex (W : Type 0) : Type 0 where
  pub lock : Counted W → Bool × Counted W
  pub unlock : W → Bool × W

-- `if (res == 0) (*count)++`
abbrev pub counted : {A : Type 0} → Outcome A → ℕ → ℕ
counted (ok a) n = (n + 1) % size_limit
counted fail n = n
counted (halt r) n = n

module _ {W : Type 0} ⦃os : Os W⦄ (mutex : Mutex W) where
  -- behind the call that sends
  unfoldable pub release :
      (pname tname : String) → LogFile → ℕ → Outcome (Unit {0}) × W → Outcome (Unit {0}) × Counted W
  release pname tname log_file n o =
      if (mutex.unlock o.1).0 then (o.0, (counted o.0 n, (mutex.unlock o.1).1)) else (
        fail,
        (
          counted o.0 n,
          mr_log_error log_file pname tname "Failed to unlock stdout mutex" [] (mutex.unlock o.1).1,
        ),
      )

  unfoldable pub emit :
      (pname tname : String) → LogFile → Io W (Unit {0}) → Io (Counted W) (Unit {0})
  unfolding release
  emit pname tname log_file send s =
      if (mutex.lock s).0
      then release pname tname log_file (mutex.lock s).1.0 (send (mutex.lock s).1.1)
      else (
        fail,
        (
          (mutex.lock s).1.0,
          mr_log_error log_file pname tname "Failed to lock stdout mutex" [] (mutex.lock s).1.1,
        ),
      )

  unfoldable pub mapper_emit :
      LogFile → (tname : String) → (token value : Bytes) → Io (Counted W) (Unit {0})
  unfolding emit
  mapper_emit log_file tname token value =
      emit "Mapper" tname log_file (send_pair_to_reducer log_file token value)

  unfoldable pub reducer_emit :
      LogFile → (tname : String) → (token result : Bytes) → Io (Counted W) (Unit {0})
  unfolding emit
  reducer_emit log_file tname token result =
      emit "Reducer" tname log_file (send_result_to_main log_file token result)
