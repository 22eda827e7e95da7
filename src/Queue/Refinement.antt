-- ===== src/Queue/Refinement.antt =====
-- The threads of src/queue.c against a stack of bounded size, on which each operation is one action.
use mr_lib.Common.{Bytes, ℕ, ◌<◌, ◌≡◌, ap, Bool, true, List, [], ◌∷◌, ◌++◌, length, take, arith}
use mr_lib.Queue.{Queue, popped, top}
use mr_lib.Queue.Laws.{IsQueue, stack, elements, length-elements, pushed-stack_cut, popped-stack}
use mr_lib.Queue.System.{
  drained, Pc, pop_loop, push_signal, close_set, close_broadcast, push_loop, pop_signal, returning,
  System, Move, pushes, pops, drains, closes, Step, alone, signals_empty, signals_full, broadcasts,
  Reach, start, later,
}
use mr_lib.Queue.Wakeups.{Reach-IsSound}

-- what a client may know of a queue
pub record Stack : Type 0 where
  pub content : List Bytes
  pub capacity : ℕ
  pub element_size : ℕ
  pub closed : Bool

-- a push of an element, a pop that returns one, a pop that returns 1, and a close
pub data Act : Type 0 where
  nothing refuse close : Act
  push pop : Bytes → Act

pub data Does : Act → Stack → Stack → Type 0 where
  does_nothing : (s : Stack) → Does nothing s s
  does_push :
      (x : Bytes) (s : Stack)
      → length s.content < s.capacity
      → Does (push x) s (record s { content = take s.element_size x ∷ s.content })
  does_pop :
      (x : Bytes) (rest : List Bytes) (s : Stack)
      → s.content ≡ x ∷ rest
      → Does (pop x) s (record s { content = rest })
  does_refuse : (s : Stack) → s.content ≡ [] → s.closed ≡ true → Does refuse s s
  does_close : (s : Stack) → Does close s (record s { closed = true })

abbrev pub view : Queue → Stack
view q = record {
  content = stack q;
  capacity = q.capacity;
  element_size = q.element_size;
  closed = q.closed;
}

-- where an operation takes effect
abbrev pub act_of : Pc → Pc → Act
act_of (push_loop x) push_signal = push x
act_of pop_loop (pop_signal x) = pop x
act_of pop_loop (returning drained) = refuse
act_of close_set close_broadcast = close
act_of _ _ = nothing

-- A move of a thread is what its operation does to the stack at that moment.
pub Move-Does :
    {q q' : Queue} {l l' : ℕ} {p p' : Pc}
    → IsQueue q
    → Move q l p q' l' p'
    → Does (act_of p p') (view q) (view q')
Move-Does {q} well (pushes {x} room) =
    let fits : q.count < q.capacity = omega (arith, well.bound) in
    rw (pushed-stack_cut x q well fits)
      (does_push x (view q) (omega (arith, length-elements q.count q.element_size q.buffer)))
Move-Does {q} well (pops some_left) =
    does_pop (top q) (stack (popped q)) (view q) (popped-stack q (omega arith))
Move-Does {q} well (drains none_left shut) =
    does_refuse (view q) (ap (λ (n : ℕ). elements n q.element_size q.buffer) none_left) shut
Move-Does well closes = does_close _
Move-Does well _ = does_nothing _

-- the action of a step
abbrev pub act_of_step : {s t : System} {p : Pc} → Step s p t → Act
act_of_step (alone front back {p} {p'} e m) = act_of p p'
act_of_step _ = nothing

-- the actions on the way to a state
abbrev pub acts : {q : Queue} {n : ℕ} {s : System} → Reach q n s → List Act
acts start = []
acts (later r step) = acts r ++ (act_of_step step ∷ [])

Step-Does :
    {s t : System} {p : Pc} (step : Step s p t)
    → IsQueue s.queue
    → Does (act_of_step step) (view s.queue) (view t.queue)
Step-Does (alone front back e m) well = Move-Does well m
Step-Does (signals_empty front back e g) well = does_nothing _
Step-Does (signals_full front back x e g) well = does_nothing _
Step-Does (broadcasts front back e) well = does_nothing _

-- some actions, one after the other
pub data Runs : List Act → Stack → Stack → Type 0 where
  ready : (s : Stack) → Runs [] s s
  then_does :
      {before : List Act} {a : Act} {s t u : Stack}
      → Runs before s t
      → Does a t u
      → Runs (before ++ (a ∷ [])) s u

-- However the threads are interleaved, the queue has gone through the actions of a stack of bounded
-- size, in the order in which the operations took effect; a push puts the element on top, a pop that
-- returns 0 takes the top, and one that returns 1 finds the stack empty and closed.
pub Reach-Runs :
    {q : Queue} {n : ℕ} {s : System}
    → IsQueue q
    → (r : Reach q n s) → Runs (acts r) (view q) (view s.queue)
Reach-Runs well start = ready _
Reach-Runs well (later r step) =
    then_does (Reach-Runs well r) (Step-Does step (Reach-IsSound well r).well)
