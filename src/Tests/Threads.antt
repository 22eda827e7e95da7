-- ===== src/Tests/Threads.antt =====
-- A consumer and a producer at an empty queue: the consumer waits, and is woken up by a push.
use mathlib.Core.List.{Perm}
use mr_lib.Common.{◌≡◌, ◌⊎◌, ◌≤◌, refl, false, [], ◌∷◌, ◌++◌, arith}
use mr_lib.Queue.{Queue, pushed, popped, top}
use mr_lib.Queue.Laws.{IsQueue, stack}
use mr_lib.Queue.System.{
  done, Pc, idle, pop_asleep, pop_woken, pop_loop, pop_signal, returning, System, call_push,
  call_pop, push_locks, pop_locks, pushes, pop_waits, pops, weigh, hungry, crowded, one, Step,
  alone, signals_empty, Reach, start, later,
}
use mr_lib.Queue.Wakeups.{IsSoundSystem, Reach-IsSound}
use mr_lib.Queue.Progress.{busy, Reach-rest, Reach-goes}
use mr_lib.Queue.Delivery.{pushed_in, popped_in, Reach-delivered}
use mr_lib.Queue.Refinement.{nothing, push, pop, Does, Runs, view, Move-Does, Reach-Runs, acts}

-- room for one element of two bytes
abbrev empty : Queue
empty = record {
  buffer = (7 ∷ 7 ∷ []) ∷ [];
  address = 1;
  capacity = 1;
  element_size = 2;
  count = 0;
  closed = false;
}

abbrev full : Queue
full = pushed (1 ∷ 2 ∷ []) empty

empty-IsQueue : IsQueue empty
empty-IsQueue = record { room = refl; bound = omega arith }

full-IsQueue : IsQueue full
full-IsQueue = record { room = refl; bound = omega arith }

abbrev waiting : System
waiting = record { queue = empty; locks = 0; threads = pop_asleep ∷ idle ∷ [] }

abbrev fed : System
fed = record { queue = full; locks = 1; threads = pop_woken ∷ returning done ∷ [] }

abbrev Reach-waiting : Reach empty 2 waiting
Reach-waiting =
    later
      (later (later start (alone [] (idle ∷ []) refl call_pop))
        (alone [] (idle ∷ []) refl (pop_locks refl)))
      (alone [] (idle ∷ []) refl (pop_waits refl refl))

abbrev Reach-fed : Reach empty 2 fed
Reach-fed =
    later
      (later
        (later (later Reach-waiting (alone (pop_asleep ∷ []) [] refl (call_push (1 ∷ 2 ∷ []) refl)))
          (alone (pop_asleep ∷ []) [] refl (push_locks refl)))
        (alone (pop_asleep ∷ []) [] refl (pushes λ e. absurd (omega (arith, e)))))
      (signals_empty (pop_asleep ∷ []) [] refl (one [] (returning done ∷ []) pop_asleep refl refl))

Reach-IsSound_example : IsSoundSystem fed
Reach-IsSound_example = Reach-IsSound empty-IsQueue Reach-fed

Reach-rest_example :
    (weigh hungry waiting.threads ≡ 0 ⊎ (empty.count ≡ 0 × empty.closed ≡ false))
    × (weigh crowded waiting.threads ≡ 0 ⊎ empty.count ≡ empty.capacity)
Reach-rest_example = Reach-rest empty-IsQueue Reach-waiting refl

Reach-goes_example : (p : Pc) × (t : System) × Step fed p t × (1 ≤ busy p)
Reach-goes_example = Reach-goes empty-IsQueue Reach-fed (omega arith)

Move-Does_example : Does (pop (1 ∷ 2 ∷ [])) (view full) (view (popped full))
Move-Does_example =
    Move-Does {l = 1} {p = pop_loop} {p' = pop_signal (top full)} full-IsQueue
      (pops λ e. absurd (omega (arith, e)))

Reach-Runs_example :
    Runs
      (nothing ∷ nothing ∷ nothing ∷ nothing ∷ nothing ∷ push (1 ∷ 2 ∷ []) ∷ nothing ∷ [])
      (view empty)
      (view full)
Reach-Runs_example = Reach-Runs empty-IsQueue Reach-fed

Reach-delivered_example :
    Perm (stack empty ++ pushed_in 2 (acts Reach-fed)) (popped_in (acts Reach-fed) ++ stack full)
Reach-delivered_example = Reach-delivered empty-IsQueue Reach-fed
