-- ===== src/Reducer/Workers/Draining.antt =====
-- A worker of the reducer on a closed queue, when no other thread runs.
use Prim.Native.String.{String}
use mr_lib.Common.{
  ℕ, zero, suc, ◌<◌, ◌≡◌, refl, ap, sym, ◌∙◌, true, false, none, some, List, [], ◌∷◌, Bytes,
  of_bytes, length, ◌==◌, ◌&&◌, ==_iff, ==_differ, arith,
}
use mathlib.Core.Bool.{not}
use mr_lib.Os.{Arg, Os}
use mr_lib.Os.Io.{Io, Outcome, ok, fail, halt, after, pure, ◌>>=◌, ◌>>◌, syscall_ret, succeed}
use mr_lib.Log.{LogFile, mr_log_error}
use mr_lib.Queue.{
  Shared, Queue, Threads, mr_queue_pop, wait_for_element, take_top, popped, top, shared_call,
  local_call,
}
use mr_lib.Queue.Laws.{stack, popped-stack, length-elements}
use mr_lib.Reducer.Table.{TokenNode, Chain}
use mr_lib.Reducer.Workers.{
  ReducerFunction, reduce_node, reduce_all, visit, node_at, pop_or_stop, release_node,
  despite_failure, go_on,
}
use mr_lib.Reducer.Table.Freeing.{freed_node, release_node-freed}

-- the calls of the queue succeed and change nothing, since no other thread runs
pub record IsAlone {W : Type 0} (threads : Threads W) : Type 0 where
  pub lock : (s : Shared W) → threads.mtx_lock s ≡ (true, s)
  pub unlock : (w : W) → threads.mtx_unlock w ≡ (true, w)
  pub signal : (w : W) → threads.cnd_signal_full w ≡ (true, w)

module _ {W : Type 0} ⦃os : Os W⦄ (threads : Threads W) where
  pub pop-some :
      (pop_fuel : ℕ) (q : Queue) (w : W)
      → IsAlone threads
      → 0 < q.count
      → mr_queue_pop threads (suc pop_fuel) (q, w) ≡ (ok (some (top q)), (popped q, w))
  unfolding mr_queue_pop wait_for_element take_top syscall_ret shared_call local_call ◌>>=◌ pure
      succeed
  pop-some pop_fuel q w alone some_left =
      let more : (q.count == 0) ≡ false = ==_differ q.count 0 (omega arith) in
      let waits : ((q.count == 0) && not q.closed) ≡ false = rw more refl in
      let ends : ((q.count == 0) && q.closed) ≡ false = rw more refl in
      rw (alone.lock (q, w)) (rw (waits, ends) (rw (alone.signal w) (rw (alone.unlock w) refl)))

  pub pop-none :
      (pop_fuel : ℕ) (q : Queue) (w : W)
      → IsAlone threads
      → q.count ≡ 0
      → q.closed ≡ true
      → mr_queue_pop threads (suc pop_fuel) (q, w) ≡ (ok none, (q, w))
  unfolding mr_queue_pop wait_for_element take_top syscall_ret shared_call local_call ◌>>=◌ pure
      succeed
  pop-none pop_fuel q w alone none_left shut =
      let over : (q.count == 0) ≡ true = (==_iff q.count 0).1 none_left in
      let waits : ((q.count == 0) && not q.closed) ≡ false = rw (over, shut) refl in
      let ends : ((q.count == 0) && q.closed) ≡ true = rw (over, shut) refl in
      rw (alone.lock (q, w)) (rw waits (rw ends (rw (alone.unlock w) refl)))

-- what stands in the queue are the addresses of these nodes
pub data AreQueued (nodes : Chain) : List Bytes → Chain → Type 0 where
  none_queued : AreQueued nodes [] []
  queued :
      {x : Bytes} {xs : List Bytes} {node : TokenNode} {picked : Chain}
      → node_at nodes (of_bytes x) ≡ some node
      → AreQueued nodes xs picked
      → AreQueued nodes (x ∷ xs) (node ∷ picked)

-- the world without the queue
abbrev pub outside : {A W : Type 0} → Outcome A × Shared W → Outcome A × W
outside o = (o.0, o.1.1)

pub outside-after :
    {W : Type 0} (o : Outcome (Unit {0}) × W) (q : Queue) (k : Io (Shared W) (Unit {0}))
    (r : Io W (Unit {0}))
    → ((w : W) → outside (k (q, w)) ≡ r w)
    → outside (after (o.0, (q, o.1)) (λ _. k)) ≡ after o (λ _. r)
outside-after (ok a, w) q k r h = h w
outside-after (fail, w) q k r h = refl
outside-after (halt s, w) q k r h = refl

module _ {W : Type 0} ⦃os : Os W⦄ (threads : Threads W) (reducer : ReducerFunction W)
    (emit : (token result : Bytes) → Io W (Unit {0})) (log_file : LogFile)
    (thread_name : String) where
  -- the user's function on some nodes, one after the other
  abbrev pub reduce_each : Chain → Io W (Unit {0})
  reduce_each [] = pure tt
  reduce_each (node ∷ nodes) = do
    reduce_node threads reducer emit log_file thread_name node
    reduce_each nodes

  drain :
      (fuel pop_fuel : ℕ) (nodes : Chain) (q : Queue) (w : W) {xs : List Bytes} {picked : Chain}
      → IsAlone threads
      → q.closed ≡ true
      → stack q ≡ xs
      → AreQueued nodes xs picked
      → length picked < fuel
      → outside
          (reduce_all threads reducer emit fuel (suc pop_fuel) log_file thread_name nodes (q, w))
        ≡ reduce_each picked w
  unfolding reduce_all visit pop_or_stop ◌>>=◌ pure
  drain zero pop_fuel nodes q w alone shut e held h = absurd (omega (arith, h))
  drain (suc fuel) pop_fuel nodes q w alone shut e none_queued h =
      let many = length-elements q.count q.element_size q.buffer in
      let over : q.count ≡ 0 = sym many ∙ ap (λ (l : List Bytes). length l) e in
      rw (pop-none threads pop_fuel q w alone over shut) refl
  drain (suc fuel) pop_fuel nodes q w alone shut e (queued {x} {xs} {node} {picked} here held) h =
      let many = length-elements q.count q.element_size q.buffer in
      let count : q.count ≡ suc (length xs) = sym many ∙ ap (λ (l : List Bytes). length l) e in
      let some_left : 0 < q.count = omega (arith, count) in
      let both : top q ∷ stack (popped q) ≡ x ∷ xs = sym (popped-stack q some_left) ∙ e in
      let first : top q ≡ x = cc in
      let rest : stack (popped q) ≡ xs = cc in
      let here' : node_at nodes (of_bytes (top q)) ≡ some node =
        ap (λ (y : Bytes). node_at nodes (of_bytes y)) first ∙ here in
      rw (pop-some threads pop_fuel q w alone some_left) (
        rw here' (
          outside-after _ (popped q) _ (reduce_each picked)
            λ w'. drain fuel pop_fuel nodes (popped q) w' alone shut rest held (omega (arith, h))))

  -- the loop on a closed queue is one turn for each node in it
  pub reduce_all-each :
      (fuel pop_fuel : ℕ) (nodes picked : Chain) (q : Queue) (w : W)
      → IsAlone threads
      → q.closed ≡ true
      → AreQueued nodes (stack q) picked
      → length picked < fuel
      → outside
          (reduce_all threads reducer emit fuel (suc pop_fuel) log_file thread_name nodes (q, w))
        ≡ reduce_each picked w
  reduce_all-each fuel pop_fuel nodes picked q w alone shut held h =
      drain fuel pop_fuel nodes q w alone shut refl held h

  -- A node is done with however the user's function ends but by stopping the program: a failure is
  -- logged, the node is freed, and the worker goes on.
  abbrev pub done_with : TokenNode → Outcome (Unit {0}) × W → Outcome (Unit {0}) × W
  done_with node (ok a, w) = (ok tt, freed_node node w)
  done_with node (fail, w) = (
    ok tt,
    freed_node node (
        mr_log_error log_file "Reducer" thread_name "User reducer function failed for token %s"
          (Arg.bytes node.token.bytes ∷ []) w),
  )
  done_with node (halt s, w) = (halt s, w)

  abbrev pub turns : Chain → Io W (Unit {0})
  turns [] w = (ok tt, w)
  turns (node ∷ nodes) w =
      after (done_with node (reducer node.token.bytes node.values node.count emit w))
        (λ _. turns nodes)

  go_on-done :
      (node : TokenNode) (o : Outcome (Unit {0}) × W)
      → after
          (go_on o (
            mr_log_error log_file "Reducer" thread_name "User reducer function failed for token %s"
              (Arg.bytes node.token.bytes ∷ [])))
          (λ _ w. (ok tt, release_node node w))
        ≡ done_with node o
  go_on-done node (ok a, w) = ap (λ (v : W). (ok tt, v)) (release_node-freed node w)
  go_on-done node (fail, w) = ap (λ (v : W). (ok tt, v)) (release_node-freed node _)
  go_on-done node (halt s, w) = refl

  reduce_node-done :
      (node : TokenNode) (w : W)
      → reduce_node threads reducer emit log_file thread_name node w
        ≡ done_with node (reducer node.token.bytes node.values node.count emit w)
  unfolding reduce_node despite_failure ◌>>=◌ pure
  reduce_node-done node w = go_on-done node _

  reduce_each-turns : (nodes : Chain) (w : W) → reduce_each nodes w ≡ turns nodes w
  unfolding ◌>>=◌ pure
  reduce_each-turns [] w = refl
  reduce_each-turns (node ∷ nodes) w =
      ap (λ (o : Outcome (Unit {0}) × W). after o (λ _. reduce_each nodes))
        (reduce_node-done node w)
      ∙ ap
          (λ (k : Io W (Unit {0})).
            after (done_with node (reducer node.token.bytes node.values node.count emit w))
              (λ _. k))
          (λ i v. reduce_each-turns nodes v i)

  -- On a closed queue, when no other thread runs and the fuel exceeds the number of elements, the loop of
  -- a worker calls the user's function on each node in the queue, the newest first, with its token, its
  -- values and their number, and then frees the token, each value, the array and the node, before it
  -- takes the next; a failure of the function is logged and does not end the loop.
  pub reduce_all-turns :
      (fuel pop_fuel : ℕ) (nodes picked : Chain) (q : Queue) (w : W)
      → IsAlone threads
      → q.closed ≡ true
      → AreQueued nodes (stack q) picked
      → length picked < fuel
      → outside
          (reduce_all threads reducer emit fuel (suc pop_fuel) log_file thread_name nodes (q, w))
        ≡ turns picked w
  reduce_all-turns fuel pop_fuel nodes picked q w alone shut held h =
      reduce_all-each fuel pop_fuel nodes picked q w alone shut held h ∙ reduce_each-turns picked w
