-- ===== src/Mapper/Controller.antt =====
-- mapper_process_main of src/mapper.c.
use Prim.Native.String.{String}
use mr_lib.Common.{
  ℕ, zero, suc, ◌+◌, ◌*◌, ◌%◌, Bool, true, false, Option, none, some, List, [], ◌∷◌, Bytes,
  size_limit, ◌==◌, ◌||◌, if◌then◌else◌,
}
use mr_lib.Os.{Arg, Request, Os}
use mr_lib.Os.Io.{
  Io, Outcome, ok, fail, Stop, halt, pure, failed, ◌>>=◌, ◌>>◌, Handler, no_handler, ◌then_do◌,
  syscall_exit, call, free,
}
use mr_lib.Log.{LogFile, mr_log_info, mr_log_warning, mr_log_error}
use mr_lib.Protocol.Headers.{line_header_of, read_object}
use mr_lib.Protocol.Pair.{null_or}
use mr_lib.Protocol.Lines.{MainReceiver, FileLine, main_receiver_init, open_if_finished}
use mr_lib.Queue.{
  Shared, Threads, shared_call, local_call, mr_queue_init, mr_queue_destroy, mr_queue_push,
  mr_queue_close,
}
use mr_lib.Reducer.Workers.{beside_queue, beside_queue_do, despite_failure}
use mr_lib.Reducer.Processing.{
  Crew, Blocks, thread_bytes, join_worker, stop_workers, tear_down, free_blocks, with_queue,
}
use mr_lib.Process.Spawn.{stdin_fileno}
use mr_lib.Protocol.Ends.{receive_line_from_main}
use mr_lib.Mapper.{line_bytes, line_size, worker_bytes, free_line}

-- How the loop over the lines ends: whether a receive failed, what `current_file_name` of the receiver
-- is then, and the number of lines.
pub record Received : Type 0 where
  pub failed_receive : Bool
  pub name : ℕ
  pub lines_count : ℕ

module _ {W : Type 0} ⦃os : Os W⦄ where
  -- `current_file_name` behind a header that is read again: freed, and NULL
  abbrev pub name_behind : Outcome (ℕ × Bytes) × W → ℕ → ℕ
  name_behind (ok a, w) name = 0
  name_behind (fail, w) name = name
  name_behind (halt r, w) name = name

  abbrev pub name_in_file :
      Outcome (ℕ × Bytes) × W → (again : MainReceiver → W → ℕ) → MainReceiver → ℕ
  name_in_file (ok (bytes_read, object), w) again current =
      if (line_header_of object).eof
      then again (record current { file_finished = true }) w
      else current.current_file_name.address
  name_in_file (fail, w) again current = current.current_file_name.address
  name_in_file (halt r, w) again current = current.current_file_name.address

  abbrev pub name_behind_open :
      Outcome (MainReceiver × Bool) × W → (again : MainReceiver → W → ℕ) → (read_fd old : ℕ) → ℕ → ℕ
  name_behind_open (ok (current, live), w) again read_fd old refused =
      name_in_file (read_object read_fd 16 w) again current
  name_behind_open (fail, w) again read_fd old refused = refused
  name_behind_open (halt r, w) again read_fd old refused = old

  -- `current_file_name` of the receiver when `receive_line_from_main_fd` has failed in this world
  unfoldable pub name_left : (fuel : ℕ) → LogFile → (read_fd : ℕ) → MainReceiver → W → ℕ
  name_left zero log_file read_fd receiver w = receiver.current_file_name.address
  name_left (suc fuel) log_file read_fd receiver w =
      let old = receiver.current_file_name.address in
      name_behind_open (open_if_finished log_file read_fd receiver w)
        (name_left fuel log_file read_fd) read_fd old (name_behind (read_object read_fd 8 w) old)

module _ {W : Type 0} ⦃os : Os W⦄ (threads : Threads W) (crew : Crew W) (log_file : LogFile) where
  say : (message : String) → List Arg → Handler (Shared W)
  say message args = beside_queue_do (mr_log_error log_file "Mapper" "Controller" message args)

  unfoldable pub allocate_blocks : (mapper_threads : ℕ) → Io (Shared W) Blocks
  unfolding say
  allocate_blocks mapper_threads = do
    a ← beside_queue (call (Request.malloc (thread_bytes * mapper_threads % size_limit)))
    b ← beside_queue (call (Request.malloc (worker_bytes * mapper_threads % size_limit)))
    let blocks : Blocks = record { threads = null_or a; args = null_or b }
    if (null_or a == 0) || (null_or b == 0)
        then syscall_exit failed (
            say "Failed to allocate memory for mapper threads" []
            then_do free_blocks threads crew log_file blocks
            then_do tear_down threads crew log_file)
        else pure blocks

  -- `left` workers from number `i` on
  unfoldable pub start_workers : (left i : ℕ) → Blocks → Io (Shared W) (Unit {0})
  unfolding say
  start_workers zero i blocks = pure tt
  start_workers (suc left) i blocks = do
    syscall_exit (shared_call (crew.create i)) (
        say "Failed to create mapper worker thread %zu" (Arg.num i ∷ [])
        then_do stop_workers threads crew log_file i
        then_do free_blocks threads crew log_file blocks
        then_do tear_down threads crew log_file)
    start_workers left (i + 1) blocks

  -- A failed push frees the line, and the loop goes on: `break` leaves the macro only.
  unfoldable pub push_line : (push_fuel : ℕ) → FileLine → Io (Shared W) (Unit {0})
  unfolding say
  push_line push_fuel line =
      despite_failure (mr_queue_push threads push_fuel (line_bytes line))
        (say "Failed to push line to queue" [] then_do beside_queue_do (free_line line))

  -- what follows a call of `receive_line_from_main`; `left` is the name that a failure leaves
  abbrev pub on_line :
      Outcome (MainReceiver × Option FileLine) × Shared W
      → (left lines_count : ℕ) → (again : MainReceiver → FileLine → Io (Shared W) Received)
      → Outcome Received × Shared W
  on_line (ok (receiver, none), s) left lines_count again =
      pure
        (record {
          failed_receive = false;
          name = receiver.current_file_name.address;
          lines_count = lines_count;
        })
        s
  on_line (ok (receiver, some line), s) left lines_count again = again receiver line s
  on_line (fail, s) left lines_count again =
      pure (record { failed_receive = true; name = left; lines_count = lines_count }) s
  on_line (halt r, s) left lines_count again = (halt r, s)

  -- the loop
  unfoldable pub push_lines :
      (fuel receive_fuel push_fuel : ℕ) → MainReceiver → (lines_count : ℕ) → Io (Shared W) Received
  push_lines zero receive_fuel push_fuel receiver lines_count = λ s. (halt Stop.out_of_fuel, s)
  push_lines (suc fuel) receive_fuel push_fuel receiver lines_count = λ s.
      on_line (beside_queue (receive_line_from_main receive_fuel log_file receiver) s)
        (name_left receive_fuel log_file stdin_fileno receiver s.1) lines_count
        (λ next line. do
          push_line push_fuel line
          push_lines fuel receive_fuel push_fuel next ((lines_count + 1) % size_limit))

  -- what is said of a worker that has ended
  unfoldable pub report : (i code : ℕ) → Handler (Shared W)
  report i code s =
      if code == 0
      then s
      else beside_queue_do
          (mr_log_warning log_file "Mapper" "Controller"
            "Mapper worker thread %zu exited with error code %d" (Arg.num i ∷ Arg.num code ∷ []))
          s

  -- A failed join returns at once.
  unfoldable pub join_workers : (left i : ℕ) → Io (Shared W) (Unit {0})
  unfolding say
  join_workers zero i = pure tt
  join_workers (suc left) i = do
    code ←
        syscall_exit (join_worker threads crew log_file i)
          (say "Failed to join mapper worker thread %zu" (Arg.num i ∷ []))
    λ s. pure tt (report i code s)
    join_workers left (i + 1)

  -- behind `mr_queue_init`; `pairs_count` is the counter that the workers share
  unfoldable pub map_lines :
      (fuel receive_fuel push_fuel : ℕ)
      → (pairs_count : W → ℕ) → (mapper_threads : ℕ) → Io (Shared W) (Unit {0})
  unfolding say
  map_lines fuel receive_fuel push_fuel pairs_count mapper_threads = do
    syscall_exit (local_call crew.mutex_init) (
        say "Failed to initialize stdout mutex" []
        then_do (λ s. (s.0, mr_queue_destroy threads s.0 s.1)))
    blocks ← allocate_blocks mapper_threads
    start_workers mapper_threads 0 blocks
    received ← push_lines fuel receive_fuel push_fuel main_receiver_init 0
    syscall_exit (mr_queue_close threads) (say "Failed to close queue" [])
    join_workers mapper_threads 0
    λ s. pure tt (beside_queue_do (free received.name) s)
    λ s. pure tt (free_blocks threads crew log_file blocks (tear_down threads crew log_file s))
    if received.failed_receive
        then syscall_exit failed (say "Error receiving lines from main process" [])
        else pure tt
    λ s.
        syscall_exit
          (beside_queue (
            mr_log_info log_file "Mapper" "Controller"
              "Mapper process finished: %zu lines received, %zu pairs produced"
              (Arg.num received.lines_count ∷ Arg.num (pairs_count s.1) ∷ [])))
          no_handler s

  unfoldable pub mapper_process_main :
      (fuel receive_fuel push_fuel : ℕ)
      → (pairs_count : W → ℕ) → (mapper_threads queue_size : ℕ) → Io W (Unit {0})
  mapper_process_main fuel receive_fuel push_fuel pairs_count mapper_threads queue_size = do
    syscall_exit
        (mr_log_info log_file "Mapper" "Controller"
          "Mapper process started with %zu threads and queue size %zu"
          (Arg.num mapper_threads ∷ Arg.num queue_size ∷ []))
        no_handler
    queue ←
        syscall_exit (mr_queue_init threads queue_size line_size)
          (mr_log_error log_file "Mapper" "Controller" "Failed to initialize mapper queue" [])
    with_queue threads crew log_file queue
        (map_lines fuel receive_fuel push_fuel pairs_count mapper_threads)
