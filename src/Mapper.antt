-- ===== src/Mapper.antt =====
-- src/mapper.c but for `mapper_emit`: the process that hands the lines of the input to its workers over a
-- queue, and the workers. The world `W` has the counter of the pairs in it, `emit` stands for
-- `mapper_emit` with the argument of the thread, and `text_at` is what a block holds.
pub mod Controller
pub mod Elements
pub mod Draining
pub mod Feeding
use Prim.Native.String.{String}
use mr_lib.Common.{
  ℕ, zero, suc, ◌+◌, ◌*◌, ◌%◌, Bool, true, false, Option, none, some, [], ◌∷◌, ◌++◌, Bytes, take,
  drop, of_bytes, size_bytes, size_limit, ◌==◌, ◌||◌, if◌then◌else◌,
}
use mr_lib.Os.{Arg, Request, Os}
use mr_lib.Os.Io.{
  Io, Outcome, ok, fail, Stop, halt, pure, failed, ◌>>=◌, ◌>>◌, Handler, no_handler, ◌then_do◌,
  syscall_exit, call, free,
}
use mr_lib.Log.{LogFile, mr_log_info, mr_log_warning, mr_log_error}
use mr_lib.Protocol.Headers.{line_header_of, file_name_header_of, read_object}
use mr_lib.Protocol.Pair.{null_or}
use mr_lib.Protocol.Lines.{
  MainReceiver, FileLine, main_receiver_init, open_if_finished, receive_line_from_main_fd,
}
use mr_lib.Queue.{
  Shared, Queue, Threads, shared_call, local_call, mr_queue_init, mr_queue_destroy, mr_queue_push,
  mr_queue_pop, mr_queue_close,
}
use mr_lib.Reducer.Workers.{beside_queue, beside_queue_do, pop_or_stop, despite_failure}
use mr_lib.Reducer.Processing.{
  Crew, Blocks, thread_bytes, join_worker, stop_workers, tear_down, free_blocks, with_queue,
}

-- the bytes of an `mr_file_line_t`
unfoldable pub line_bytes : FileLine → Bytes
line_bytes line =
    size_bytes line.file_name.address
    ++ (size_bytes line.file_name_len
        ++ (size_bytes line.line_number
            ++ (size_bytes line.line.address ++ size_bytes line.line_len)))

-- a field of 8 bytes
abbrev pub field : (offset : ℕ) → Bytes → ℕ
field offset bs = of_bytes (take 8 (drop offset bs))

unfoldable pub line_at : (text_at : ℕ → Bytes) → Bytes → FileLine
line_at text_at bs = record {
  file_name = record { address = field 0 bs; bytes = text_at (field 0 bs) };
  file_name_len = field 8 bs;
  line_number = field 16 bs;
  line = record { address = field 24 bs; bytes = text_at (field 24 bs) };
  line_len = field 32 bs;
}

-- sizeof(mr_file_line_t) and sizeof(mapper_thread_arg_t)
abbrev pub line_size : ℕ
line_size = 40

abbrev pub worker_bytes : ℕ
worker_bytes = 80

-- the user's function on a line; it fails if it returns -1
abbrev pub MapperFunction : Type 0 → Type 0
MapperFunction W = FileLine → (emit : (token value : Bytes) → Io W (Unit {0})) → Io W (Unit {0})

-- `free(line.line); free(line.file_name);`
unfoldable pub free_line : {W : Type 0} ⦃os : Os W⦄ → FileLine → Handler W
free_line line = free line.line.address then_do free line.file_name.address

module _ {W : Type 0} ⦃os : Os W⦄ (threads : Threads W) (mapper : MapperFunction W)
    (emit : (token value : Bytes) → Io W (Unit {0})) (text_at : ℕ → Bytes) where
  -- the user's function on one line
  unfoldable pub map_line : LogFile → (thread_name : String) → FileLine → Io W (Unit {0})
  unfolding free_line
  map_line log_file thread_name line = do
    syscall_exit (mapper line emit) (
        mr_log_error log_file "Mapper" thread_name
          "User mapper function failed for file %s, line %lu"
          (Arg.bytes line.file_name.bytes ∷ Arg.num line.line_number ∷ [])
        then_do free_line line)
    λ w. pure tt (free_line line w)

  unfoldable pub map_all :
      (fuel pop_fuel : ℕ) → LogFile → (thread_name : String) → Io (Shared W) (Unit {0})
  map_all zero pop_fuel log_file thread_name = λ s. (halt Stop.out_of_fuel, s)
  map_all (suc fuel) pop_fuel log_file thread_name = do
    popped ← pop_or_stop (mr_queue_pop threads pop_fuel)
    elim popped [
      | none ↦ pure tt
      | some element ↦ do
        beside_queue (map_line log_file thread_name (line_at text_at element))
        map_all fuel pop_fuel log_file thread_name
    ]

  unfoldable pub mapper_worker :
      (fuel pop_fuel : ℕ) → LogFile → (thread_name : String) → Io (Shared W) (Unit {0})
  mapper_worker fuel pop_fuel log_file thread_name = do
    syscall_exit
        (beside_queue (mr_log_info log_file "Mapper" thread_name "Mapper worker thread started" []))
        no_handler
    map_all fuel pop_fuel log_file thread_name
    syscall_exit
        (beside_queue
          (mr_log_info log_file "Mapper" thread_name "Mapper worker thread finished" []))
        no_handler
