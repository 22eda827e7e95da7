-- ===== src/Queue/Sound.antt =====
-- An invariant of the threads of src/queue.c, on their numbers.
use mr_lib.Common.{Bytes, ℕ, ◌+◌, ◌≤◌, ◌≡◌, ◌⊎◌, inl, inr, false, arith}
use mr_lib.Queue.{Queue}
use mr_lib.Queue.Laws.{IsQueue, pushed-Interfered, popped-Interfered}
use mr_lib.Queue.System.{
  Pc, pop_asleep, pop_woken, push_signal, close_broadcast, push_asleep, push_woken, pop_signal,
  returning, done, element, Move, call_push, call_pop, call_close, push_locks, pop_locks,
  close_locks, push_waits, push_returns, pushes, pop_waits, pop_returns, pops, drains, closes,
  unlocks, push_wakes, pop_wakes,
}
use mr_lib.Queue.Census.{Census, beside, Same-of}

-- At most one thread has the mutex. Where a thread waits for elements, there are no more of them than
-- threads on their way to look; and the same of room. When the queue is closed nobody waits for
-- elements but while the broadcast is yet to come.
pub record IsSound (q : Queue) (locks : ℕ) (c : Census) : Type 0 where
  pub well : IsQueue q
  pub mutex : c.insiders ≡ locks
  pub single : locks ≤ 1
  pub fed : c.hungry_ones ≡ 0 ⊎ q.count ≤ c.feeders
  pub roomy : c.crowded_ones ≡ 0 ⊎ q.capacity ≤ q.count + c.clearers
  pub told : q.closed ≡ false ⊎ c.hungry_ones ≡ 0 ⊎ 1 ≤ c.closers

-- A move keeps the invariant, whatever the other threads are.
pub Move-IsSound :
    {q q' : Queue} {l l' : ℕ} {p p' : Pc} (c : Census)
    → Move q l p q' l' p'
    → IsSound q l (beside p c)
    → IsSound q' l' (beside p' c)
Move-IsSound c (call_push x e) s = s
Move-IsSound c call_pop s = s
Move-IsSound c call_close s = s
Move-IsSound c (push_locks e) s = record {
  well = s.well;
  mutex = omega (arith, s.mutex);
  single = omega arith;
  fed = s.fed;
  roomy = ground (arith, s.roomy);
  told = s.told;
}
Move-IsSound c (pop_locks e) s = record {
  well = s.well;
  mutex = omega (arith, s.mutex);
  single = omega arith;
  fed = ground (arith, s.fed);
  roomy = s.roomy;
  told = s.told;
}
Move-IsSound c (close_locks e) s = record {
  well = s.well;
  mutex = omega (arith, s.mutex);
  single = omega arith;
  fed = s.fed;
  roomy = s.roomy;
  told = s.told;
}
Move-IsSound c (push_waits full) s = record {
  well = s.well;
  mutex = omega (arith, s.mutex, s.single);
  single = omega arith;
  fed = s.fed;
  roomy = inr (omega arith);
  told = s.told;
}
Move-IsSound c (push_returns e) s = record {
  well = s.well;
  mutex = omega (arith, s.mutex);
  single = omega arith;
  fed = s.fed;
  roomy = ground (arith, s.roomy);
  told = s.told;
}
Move-IsSound c (pushes room) s = record {
  well = (pushed-Interfered _ _ s.well (omega (arith, s.well.bound))).well;
  mutex = s.mutex;
  single = s.single;
  fed = ground (arith, s.fed);
  roomy = ground (arith, s.roomy);
  told = s.told;
}
Move-IsSound c (pop_waits n still_open) s = record {
  well = s.well;
  mutex = omega (arith, s.mutex, s.single);
  single = omega arith;
  fed = inr (omega arith);
  roomy = s.roomy;
  told = inl still_open;
}
Move-IsSound c (pop_returns e) s = record {
  well = s.well;
  mutex = omega (arith, s.mutex);
  single = omega arith;
  fed = ground (arith, s.fed);
  roomy = s.roomy;
  told = s.told;
}
Move-IsSound c (pops n) s = record {
  well = (popped-Interfered _ s.well).well;
  mutex = s.mutex;
  single = s.single;
  fed = ground (arith, s.fed);
  roomy = ground (arith, s.roomy);
  told = s.told;
}
Move-IsSound c (drains n shut) s = record {
  well = s.well;
  mutex = s.mutex;
  single = s.single;
  fed = inr (omega arith);
  roomy = s.roomy;
  told = s.told;
}
Move-IsSound c closes s = record {
  well = record { room = s.well.room; bound = s.well.bound };
  mutex = s.mutex;
  single = s.single;
  fed = s.fed;
  roomy = s.roomy;
  told = inr (inr (omega arith));
}
Move-IsSound c unlocks s = record {
  well = s.well;
  mutex = omega (arith, s.mutex, s.single);
  single = omega arith;
  fed = s.fed;
  roomy = s.roomy;
  told = s.told;
}
Move-IsSound c push_wakes s = record {
  well = s.well;
  mutex = s.mutex;
  single = s.single;
  fed = s.fed;
  roomy = ground (arith, s.roomy);
  told = s.told;
}
Move-IsSound c pop_wakes s = record {
  well = s.well;
  mutex = s.mutex;
  single = s.single;
  fed = ground (arith, s.fed);
  roomy = s.roomy;
  told = ground (arith, s.told);
}

-- Signals. `c` is the threads beside the one that signals, and `d` those beside the one that is woken
-- up, with the one that has signalled among them.
pub fed_later :
    {q : Queue} {l : ℕ} (c d : Census)
    → beside (returning done) c ≡ beside pop_asleep d
    → IsSound q l (beside push_signal c)
    → IsSound q l (beside pop_woken d)
fed_later c d e s =
    let numbers = Same-of e in
    record {
      well = s.well;
      mutex = omega (arith, s.mutex, numbers.insiders);
      single = s.single;
      fed = ground (arith, s.fed, numbers.hungry_ones, numbers.feeders);
      roomy = ground (arith, s.roomy, numbers.crowded_ones, numbers.clearers);
      told = ground (arith, s.told, numbers.hungry_ones, numbers.closers);
    }

pub cleared_later :
    {q : Queue} {l : ℕ} (x y : Bytes) (c d : Census)
    → beside (returning (element x)) c ≡ beside (push_asleep y) d
    → IsSound q l (beside (pop_signal x) c)
    → IsSound q l (beside (push_woken y) d)
cleared_later x y c d e s =
    let numbers = Same-of e in
    record {
      well = s.well;
      mutex = omega (arith, s.mutex, numbers.insiders);
      single = s.single;
      fed = ground (arith, s.fed, numbers.hungry_ones, numbers.feeders);
      roomy = ground (arith, s.roomy, numbers.crowded_ones, numbers.clearers);
      told = ground (arith, s.told, numbers.hungry_ones, numbers.closers);
    }

-- nobody waits
pub fed_already :
    {q : Queue} {l : ℕ} (c : Census)
    → c.hungry_ones ≡ 0
    → IsSound q l (beside push_signal c)
    → IsSound q l (beside (returning done) c)
fed_already c none_there s = record {
  well = s.well;
  mutex = s.mutex;
  single = s.single;
  fed = inl (omega arith);
  roomy = s.roomy;
  told = s.told;
}

pub cleared_already :
    {q : Queue} {l : ℕ} (x : Bytes) (c : Census)
    → c.crowded_ones ≡ 0
    → IsSound q l (beside (pop_signal x) c)
    → IsSound q l (beside (returning (element x)) c)
cleared_already x c none_there s = record {
  well = s.well;
  mutex = s.mutex;
  single = s.single;
  fed = s.fed;
  roomy = inl (omega arith);
  told = s.told;
}

-- all that wait for elements are woken up
pub told_all :
    {q : Queue} {l : ℕ} (c d : Census)
    → d.insiders ≡ 1 + c.insiders
    → d.hungry_ones ≡ 0
    → d.crowded_ones ≡ c.crowded_ones
    → d.clearers ≡ c.clearers
    → IsSound q l (beside close_broadcast c)
    → IsSound q l d
told_all c d same_inside none_left same_crowded same_clearers s = record {
  well = s.well;
  mutex = omega (arith, s.mutex);
  single = s.single;
  fed = inl none_left;
  roomy = ground (arith, s.roomy);
  told = inr (inl none_left);
}
