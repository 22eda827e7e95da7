-- ===== src/Queue.antt =====
-- src/queue.c and src/queue.h: a bounded stack that threads share. An operation runs on the shared
-- queue beside the world; while a thread waits for the mutex or for a condition, the others run, so
-- those calls return the queue as the others have left it.
pub mod Init
pub mod Laws
pub mod Held
pub mod Operations
pub mod System
pub mod Census
pub mod Sound
pub mod Wakeups
pub mod Progress
pub mod Refinement
pub mod Delivery
use mr_lib.Common.{
  ℕ, zero, suc, ◌+◌, ◌-◌, ◌*◌, ◌/◌, ◌%◌, Bool, true, false, Option, none, some, List, [], ◌∷◌,
  Bytes, take, get_or, set, replicate, ltb, ◌==◌, ◌&&◌, size_limit, if◌then◌else◌,
}
use mathlib.Core.Bool.{not}
use mr_lib.Os.{Os}
use mr_lib.Os.Io.{
  Io, Stop, ok, halt, pure, succeed, assert, ◌>>=◌, ◌>>◌, Handler, no_handler, ◌then_do◌,
  syscall_ret, free, ignore,
}
use mr_lib.Os.Calls

-- `mr_queue_t`, but for the mutex and the conditions. `buffer` is cut in elements of `element_size`
-- bytes.
pub record Queue : Type 0 where
  pub buffer : List Bytes
  pub address : ℕ
  pub capacity : ℕ
  pub element_size : ℕ
  pub count : ℕ
  pub closed : Bool

abbrev pub Shared : Type 0 → Type 0
Shared W = Queue × W

-- The calls of <threads.h> on the mutex and the conditions of the queue: whether one succeeded, and
-- what is then found.
pub record Threads (W : Type 0) : Type 0 where
  pub mtx_lock : Shared W → Bool × Shared W
  pub cnd_wait_full : Shared W → Bool × Shared W
  pub cnd_wait_empty : Shared W → Bool × Shared W
  pub mtx_unlock : W → Bool × W
  pub cnd_signal_empty : W → Bool × W
  pub cnd_signal_full : W → Bool × W
  pub cnd_broadcast_empty : W → Bool × W
  pub mtx_init : W → Bool × W
  pub cnd_init_full : W → Bool × W
  pub cnd_init_empty : W → Bool × W
  pub mtx_destroy : W → W
  pub cnd_destroy_full : W → W
  pub cnd_destroy_empty : W → W

-- a call during which others may run, and one that leaves the queue alone
unfoldable pub shared_call : {W : Type 0} → (Shared W → Bool × Shared W) → Io (Shared W) (Unit {0})
shared_call f s = succeed (f s).0 (f s).1

unfoldable pub local_call : {W : Type 0} → (W → Bool × W) → Io (Shared W) (Unit {0})
local_call f s = succeed (f s.1).0 (s.0, (f s.1).1)

unfoldable pub world_call : {W : Type 0} → (W → Bool × W) → Io W (Unit {0})
world_call f w = succeed (f w).0 (f w).1

-- `memcpy` of an element to the end of the used part, and `count++`
abbrev pub pushed : Bytes → Queue → Queue
pushed element q = record q {
  buffer = set q.buffer q.count (take q.element_size element);
  count = q.count + 1;
}

-- `count--`
abbrev pub popped : Queue → Queue
popped q = record q { count = q.count - 1 }

abbrev pub top : Queue → Bytes
top q = take q.element_size (get_or q.buffer (q.count - 1) [])

module _ {W : Type 0} ⦃os : Os W⦄ (threads : Threads W) where
  open threads use {
    mtx_lock, mtx_unlock, mtx_init, mtx_destroy, cnd_wait_full, cnd_wait_empty, cnd_signal_empty,
    cnd_signal_full, cnd_broadcast_empty, cnd_init_full, cnd_init_empty, cnd_destroy_full,
    cnd_destroy_empty,
  }

  unfoldable pub mr_queue_init : (capacity element_size : ℕ) → Io W Queue
  mr_queue_init capacity element_size = do
    assert (ltb 0 capacity)
    assert (ltb 0 element_size)
    let size = capacity * element_size % size_limit
    address ← Calls.malloc size
    syscall_ret (world_call mtx_init) (free address)
    syscall_ret (world_call cnd_init_full) (mtx_destroy then_do free address)
    syscall_ret (world_call cnd_init_empty)
        (cnd_destroy_full then_do mtx_destroy then_do free address)
    λ w.
        pure
          (record {
            buffer = replicate (size / element_size) (os.stale w element_size);
            address = address;
            capacity = capacity;
            element_size = element_size;
            count = 0;
            closed = false;
          })
          w

  unfoldable pub mr_queue_destroy : Queue → Handler W
  mr_queue_destroy q =
      free q.address then_do mtx_destroy then_do cnd_destroy_full then_do cnd_destroy_empty

  -- the way out of a failure under the mutex
  unlock : Handler (Shared W)
  unlock s = (s.0, (mtx_unlock s.1).1)

  -- The loops around `cnd_wait`: how often a thread is woken up is not bounded, so a run that uses
  -- up the fuel is one that still waits.
  unfoldable pub wait_for_room : ℕ → Io (Shared W) (Unit {0})
  unfolding unlock
  wait_for_room zero = λ s. (halt Stop.out_of_fuel, s)
  wait_for_room (suc fuel) = λ s.
      if s.0.count == s.0.capacity
      then (do syscall_ret (shared_call cnd_wait_full) unlock; wait_for_room fuel) s
      else pure tt s

  unfoldable pub wait_for_element : ℕ → Io (Shared W) (Unit {0})
  unfolding unlock
  wait_for_element zero = λ s. (halt Stop.out_of_fuel, s)
  wait_for_element (suc fuel) = λ s.
      if (s.0.count == 0) && not s.0.closed
      then (do syscall_ret (shared_call cnd_wait_empty) unlock; wait_for_element fuel) s
      else pure tt s

  unfoldable pub mr_queue_push : (fuel : ℕ) → Bytes → Io (Shared W) (Unit {0})
  unfolding unlock
  mr_queue_push fuel element = do
    λ s. assert (not s.0.closed) s
    syscall_ret (shared_call mtx_lock) no_handler
    wait_for_room fuel
    λ s. pure tt (pushed element s.0, s.1)
    syscall_ret (local_call cnd_signal_empty) unlock
    syscall_ret (local_call mtx_unlock) no_handler

  -- the part behind the loop; `none` stands for the return of 1
  unfoldable pub take_top : Io (Shared W) (Option Bytes)
  unfolding unlock
  take_top s =
      if (s.0.count == 0) && s.0.closed
      then (ok none, unlock s)
      else (do
        λ s. pure tt (popped s.0, s.1)
        syscall_ret (local_call cnd_signal_full) unlock
        syscall_ret (local_call mtx_unlock) no_handler
        pure (some (top s.0)))
          s

  unfoldable pub mr_queue_pop : (fuel : ℕ) → Io (Shared W) (Option Bytes)
  mr_queue_pop fuel = do
    syscall_ret (shared_call mtx_lock) no_handler
    wait_for_element fuel
    take_top

  unfoldable pub mr_queue_close : Io (Shared W) (Unit {0})
  unfolding unlock
  mr_queue_close = do
    syscall_ret (shared_call mtx_lock) no_handler
    λ s. pure tt (record (s.0) { closed = true }, s.1)
    syscall_ret (local_call cnd_broadcast_empty) unlock
    syscall_ret (local_call mtx_unlock) no_handler

  -- a field, read under the mutex
  unfoldable pub read_under_mutex : (Queue → Bool) → Io (Shared W) Bool
  read_under_mutex field = do
    syscall_ret (shared_call mtx_lock) no_handler
    value ← λ s. pure (field s.0) s
    syscall_ret (local_call mtx_unlock) no_handler
    pure value

  unfoldable pub mr_queue_is_closed : Io (Shared W) Bool
  mr_queue_is_closed = read_under_mutex λ q. q.closed

  unfoldable pub mr_queue_is_empty : Io (Shared W) Bool
  mr_queue_is_empty = read_under_mutex λ q. q.count == 0
