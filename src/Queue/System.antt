-- ===== src/Queue/System.antt =====
-- The threads of src/queue.c, interleaved at each call of <threads.h>. A step is what one thread does
-- from one such call to the next; the calls succeed, and a waiting thread may be woken up by nobody.
use mr_lib.Common.{ℕ, zero, suc, ◌+◌, ◌≡◌, ◌≢◌, true, false, List, [], ◌∷◌, ◌++◌, map, Bytes}
use mr_lib.Queue.{Queue, pushed, popped, top}

-- what an operation returns: 0, 0 with an element, or 1
pub data Answer : Type 0 where
  done drained : Answer
  element : Bytes → Answer

-- Where a thread is. It has the mutex in `push_loop`, `push_signal`, `pop_loop`, `pop_signal`,
-- `close_set`, `close_broadcast` and `returning`.
pub data Pc : Type 0 where
  idle pop_lock pop_loop pop_asleep pop_woken push_signal close_lock close_set close_broadcast : Pc
  push_lock push_loop push_asleep push_woken pop_signal : Bytes → Pc
  returning : Answer → Pc

pub record System : Type 0 where
  pub queue : Queue
  pub locks : ℕ
  pub threads : List Pc

-- What one thread does on its own, from the queue `q` where the mutex is taken by `locks` threads.
pub data Move (q : Queue) (locks : ℕ) : Pc → Queue → ℕ → Pc → Type 0 where
  call_push : (x : Bytes) → q.closed ≡ false → Move q locks idle q locks (push_lock x)
  call_pop : Move q locks idle q locks pop_lock
  call_close : Move q locks idle q locks close_lock
  push_locks : {x : Bytes} → locks ≡ 0 → Move q locks (push_lock x) q 1 (push_loop x)
  pop_locks : locks ≡ 0 → Move q locks pop_lock q 1 pop_loop
  close_locks : locks ≡ 0 → Move q locks close_lock q 1 close_set
  push_waits : {x : Bytes} → q.count ≡ q.capacity → Move q locks (push_loop x) q 0 (push_asleep x)
  push_returns : {x : Bytes} → locks ≡ 0 → Move q locks (push_woken x) q 1 (push_loop x)
  pushes :
      {x : Bytes} → q.count ≢ q.capacity → Move q locks (push_loop x) (pushed x q) locks push_signal
  pop_waits : q.count ≡ 0 → q.closed ≡ false → Move q locks pop_loop q 0 pop_asleep
  pop_returns : locks ≡ 0 → Move q locks pop_woken q 1 pop_loop
  pops : q.count ≢ 0 → Move q locks pop_loop (popped q) locks (pop_signal (top q))
  drains : q.count ≡ 0 → q.closed ≡ true → Move q locks pop_loop q locks (returning drained)
  closes : Move q locks close_set (record q { closed = true }) locks close_broadcast
  unlocks : {a : Answer} → Move q locks (returning a) q 0 idle
  push_wakes : {x : Bytes} → Move q locks (push_asleep x) q locks (push_woken x)
  pop_wakes : Move q locks pop_asleep q locks pop_woken

-- how many threads are in a state
abbrev pub weigh : (Pc → ℕ) → List Pc → ℕ
weigh f [] = 0
weigh f (p ∷ ps) = f p + weigh f ps

-- the threads that wait for `empty`, and those that wait for `full`
abbrev pub hungry : Pc → ℕ
hungry pop_asleep = 1
hungry _ = 0

abbrev pub crowded : Pc → ℕ
crowded (push_asleep _) = 1
crowded _ = 0

abbrev pub wake : Pc → Pc
wake pop_asleep = pop_woken
wake (push_asleep x) = push_woken x
wake p = p

abbrev pub wake_hungry : Pc → Pc
wake_hungry pop_asleep = pop_woken
wake_hungry p = p

-- `cnd_signal` to the threads that `asleep` counts: one of them is woken up if there is one
pub data Signal (asleep : Pc → ℕ) (ts : List Pc) : List Pc → Type 0 where
  nobody : weigh asleep ts ≡ 0 → Signal asleep ts ts
  one :
      (front back : List Pc) (p : Pc)
      → ts ≡ front ++ (p ∷ back)
      → asleep p ≡ 1
      → Signal asleep ts (front ++ (wake p ∷ back))

-- a step of a thread that is at the given place
pub data Step (s : System) : Pc → System → Type 0 where
  alone :
      (front back : List Pc) {p p' : Pc} {q' : Queue} {locks' : ℕ}
      → s.threads ≡ front ++ (p ∷ back)
      → Move s.queue s.locks p q' locks' p'
      → Step s p (record { queue = q'; locks = locks'; threads = front ++ (p' ∷ back) })
  -- `cnd_signal(&q->empty)` of a push
  signals_empty :
      (front back : List Pc) {ts : List Pc}
      → s.threads ≡ front ++ (push_signal ∷ back)
      → Signal hungry (front ++ (returning done ∷ back)) ts
      → Step s push_signal (record { queue = s.queue; locks = s.locks; threads = ts })
  -- `cnd_signal(&q->full)` of a pop
  signals_full :
      (front back : List Pc) (x : Bytes) {ts : List Pc}
      → s.threads ≡ front ++ (pop_signal x ∷ back)
      → Signal crowded (front ++ (returning (element x) ∷ back)) ts
      → Step s (pop_signal x) (record { queue = s.queue; locks = s.locks; threads = ts })
  -- `cnd_broadcast(&q->empty)` of a close
  broadcasts :
      (front back : List Pc)
      → s.threads ≡ front ++ (close_broadcast ∷ back)
      → Step s close_broadcast (record {
        queue = s.queue;
        locks = s.locks;
        threads = map wake_hungry (front ++ (returning done ∷ back));
      })

-- a new queue, with `n` threads that have not called anything
abbrev pub idle_threads : ℕ → List Pc
idle_threads zero = []
idle_threads (suc n) = idle ∷ idle_threads n

pub data Reach (q : Queue) (n : ℕ) : System → Type 0 where
  start : Reach q n (record { queue = q; locks = 0; threads = idle_threads n })
  later : {s t : System} {p : Pc} → Reach q n s → Step s p t → Reach q n t
