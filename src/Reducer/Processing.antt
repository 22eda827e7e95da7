-- ===== src/Reducer/Processing.antt =====
-- reducer_process_main of src/reducer.c: behind the collection phase, the nodes of the hash table are
-- handed to the workers over a queue.
pub mod Order
pub mod Joining
pub mod Ending
use Prim.Native.String.{String}
use mr_lib.Common.{
  ℕ, zero, suc, ◌+◌, ◌*◌, ◌%◌, Bool, true, false, Option, none, some, List, [], ◌∷◌, Bytes,
  size_bytes, size_limit, ◌==◌, ◌||◌, if◌then◌else◌,
}
use mr_lib.Os.{Arg, Request, Os}
use mr_lib.Os.Io.{
  Io, pure, failed, succeed, ◌>>=◌, ◌>>◌, Handler, no_handler, ◌then_do◌, syscall_exit, call, free,
}
use mr_lib.Log.{LogFile, mr_log_info, mr_log_warning, mr_log_error}
use mr_lib.Protocol.Pair.{null_or}
use mr_lib.Queue.{
  Shared, Queue, Threads, shared_call, local_call, mr_queue_init, mr_queue_destroy, mr_queue_push,
  mr_queue_close,
}
use mr_lib.Reducer.Table.{TokenNode, Chain, Table, empty_table, cleanup_chain, cleanup_hash_table}
use mr_lib.Reducer.Collect.{Collected, collect}
use mr_lib.Reducer.Workers.{beside_queue, beside_queue_do}

-- The calls of <threads.h> that make the workers, by their number, and wait for them, and those on the
-- mutex of the standard output; a worker that has been waited for has an exit code.
pub record Crew (W : Type 0) : Type 0 where
  pub create : ℕ → Shared W → Bool × Shared W
  pub join : ℕ → Shared W → Option ℕ × Shared W
  pub mutex_init : W → Bool × W
  pub mutex_destroy : W → W

-- sizeof(token_node_t*), sizeof(thrd_t) and sizeof(reducer_thread_arg_t)
abbrev pub pointer_bytes : ℕ
pointer_bytes = 8

abbrev pub thread_bytes : ℕ
thread_bytes = 8

abbrev pub worker_bytes : ℕ
worker_bytes = 80

-- the addresses of `threads` and `t_args`
pub record Blocks : Type 0 where
  pub threads : ℕ
  pub args : ℕ

module _ {W : Type 0} ⦃os : Os W⦄ (threads : Threads W) (crew : Crew W) (log_file : LogFile) where
  say : (message : String) → List Arg → Handler (Shared W)
  say message args = beside_queue_do (mr_log_error log_file "Reducer" "Controller" message args)

  -- the first `n` workers, in their order, where the result is not looked at
  unfoldable pub join_first : ℕ → Handler (Shared W)
  join_first zero s = s
  join_first (suc n) s = (crew.join n (join_first n s)).1

  -- `mtx_destroy(&stdout_mutex); mr_queue_destroy(&queue);`
  unfoldable pub tear_down : Handler (Shared W)
  tear_down s = (s.0, mr_queue_destroy threads s.0 (crew.mutex_destroy s.1))

  unfoldable pub free_blocks : Blocks → Handler (Shared W)
  free_blocks blocks = beside_queue_do (free blocks.threads then_do free blocks.args)

  unfoldable pub stop_workers : ℕ → Handler (Shared W)
  stop_workers n = (λ s. (mr_queue_close threads s).1) then_do join_first n

  -- the block that a failed allocation of the others leaves
  unfoldable pub allocate_blocks : (reducer_threads : ℕ) → Table → Io (Shared W) Blocks
  unfolding say tear_down free_blocks
  allocate_blocks reducer_threads hash_table = do
    a ← beside_queue (call (Request.malloc (thread_bytes * reducer_threads % size_limit)))
    b ← beside_queue (call (Request.malloc (worker_bytes * reducer_threads % size_limit)))
    let blocks : Blocks = record { threads = null_or a; args = null_or b }
    if (null_or a == 0) || (null_or b == 0)
        then syscall_exit failed (
            say "Failed to allocate memory for reducer threads" []
            then_do free_blocks blocks
            then_do tear_down
            then_do beside_queue_do (cleanup_hash_table hash_table))
        else pure blocks

  -- `left` workers from number `i` on
  unfoldable pub start_workers : (left i : ℕ) → Blocks → Table → Io (Shared W) (Unit {0})
  unfolding say tear_down free_blocks stop_workers
  start_workers zero i blocks hash_table = pure tt
  start_workers (suc left) i blocks hash_table = do
    syscall_exit (shared_call (crew.create i)) (
        say "Failed to create reducer worker thread %zu" (Arg.num i ∷ [])
        then_do stop_workers i
        then_do free_blocks blocks
        then_do tear_down
        then_do beside_queue_do (cleanup_hash_table hash_table))
    start_workers left (i + 1) blocks hash_table

  -- the way out of a failed push; `clean_up` frees the nodes that are left
  unfoldable pub give_up_pushing :
      (reducer_threads : ℕ) → Blocks → (clean_up : Handler W) → Handler (Shared W)
  unfolding say tear_down free_blocks stop_workers
  give_up_pushing reducer_threads blocks clean_up =
      say "Failed to push token to queue" []
      then_do stop_workers reducer_threads
      then_do beside_queue_do clean_up
      then_do free_blocks blocks
      then_do tear_down

  module _ (push_fuel : ℕ) (reducer_threads : ℕ) (blocks : Blocks) where
    -- the inner loop, with the chains that are left for the outer one
    unfoldable pub push_chain : Chain → (rest : Table) → (tokens_count : ℕ) → Io (Shared W) ℕ
    push_chain [] rest tokens_count = pure tokens_count
    push_chain (node ∷ chain) rest tokens_count = do
      syscall_exit (mr_queue_push threads push_fuel (size_bytes node.address)) (
          give_up_pushing reducer_threads blocks
            (cleanup_chain (node ∷ chain) then_do cleanup_hash_table rest))
      push_chain chain rest ((tokens_count + 1) % size_limit)

    unfoldable pub push_table : Table → (tokens_count : ℕ) → Io (Shared W) ℕ
    push_table [] tokens_count = pure tokens_count
    push_table (chain ∷ rest) tokens_count = do
      count ← push_chain chain rest tokens_count
      push_table rest count

  -- what is said of a worker that has ended
  unfoldable pub report : (i : ℕ) → (code : ℕ) → Handler (Shared W)
  report i code s =
      if code == 0
      then s
      else beside_queue_do
          (mr_log_warning log_file "Reducer" "Controller"
            "Reducer worker thread %zu exited with error code %d" (Arg.num i ∷ Arg.num code ∷ []))
          s

  -- the call of `thrd_join` whose results are looked at
  unfoldable pub join_worker : ℕ → Io (Shared W) ℕ
  join_worker i s = need_code (crew.join i s).0 (crew.join i s).1
    where
      need_code : Option ℕ → Io (Shared W) ℕ
      need_code none = failed
      need_code (some code) = pure code

  -- A failed join returns at once.
  unfoldable pub join_workers : (left i : ℕ) → Io (Shared W) (Unit {0})
  unfolding say
  join_workers zero i = pure tt
  join_workers (suc left) i = do
    code ←
        syscall_exit (join_worker i)
          (say "Failed to join reducer worker thread %zu" (Arg.num i ∷ []))
    λ s. pure tt (report i code s)
    join_workers left (i + 1)

  -- behind `mr_queue_init`; `results_count` is the counter that the workers share
  unfoldable pub process_tokens :
      (push_fuel : ℕ)
      → (results_count : W → ℕ) → (reducer_threads : ℕ) → Collected
      → Io (Shared W) (Unit {0})
  unfolding say tear_down free_blocks
  process_tokens push_fuel results_count reducer_threads collected = do
    let hash_table = collected.hash_table
    syscall_exit (local_call crew.mutex_init) (
        say "Failed to initialize stdout mutex" []
        then_do (λ s. (s.0, mr_queue_destroy threads s.0 s.1))
        then_do beside_queue_do (cleanup_hash_table hash_table))
    blocks ← allocate_blocks reducer_threads hash_table
    start_workers reducer_threads 0 blocks hash_table
    tokens_count ← push_table push_fuel reducer_threads blocks hash_table 0
    syscall_exit (mr_queue_close threads) (say "Failed to close queue" [])
    join_workers reducer_threads 0
    λ s. pure tt (free_blocks blocks (tear_down s))
    λ s.
        syscall_exit
          (beside_queue (
            mr_log_info log_file "Reducer" "Controller"
              "Reducer process finished: %zu pairs received, %zu tokens processed, %zu results produced"
              (Arg.num collected.pairs_received
                ∷ Arg.num tokens_count
                ∷ Arg.num (results_count s.1)
                ∷ [])))
          no_handler s

  -- a queue that lives as long as what runs with it
  abbrev pub with_queue : {A : Type 0} → Queue → Io (Shared W) A → Io W A
  with_queue q m w = ((m (q, w)).0, (m (q, w)).1.1)

  unfoldable pub reducer_process_main :
      (collect_fuel push_fuel : ℕ)
      → (results_count : W → ℕ) → (reducer_threads queue_size : ℕ) → Io W (Unit {0})
  reducer_process_main collect_fuel push_fuel results_count reducer_threads queue_size = do
    syscall_exit
        (mr_log_info log_file "Reducer" "Controller"
          "Reducer process started with %zu threads and queue size %zu"
          (Arg.num reducer_threads ∷ Arg.num queue_size ∷ []))
        no_handler
    collected ← collect collect_fuel log_file 0 empty_table 0
    queue ←
        syscall_exit (mr_queue_init threads queue_size pointer_bytes)
          (cleanup_hash_table collected.hash_table)
    with_queue queue (process_tokens push_fuel results_count reducer_threads collected)
