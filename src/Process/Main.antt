-- ===== src/Process/Main.antt =====
-- The main process: wait_for_process, spawn_processes and mr_run of src/core.c, and mr_start of
-- src/mr.c. What the two children run is an argument, as in `Process.Spawn`; `send_fuel` and
-- `receive_fuel` bound the loops over the input and over the results.
use Prim.Native.String.{String}
use mr_lib.Common.{ℕ, Option, none, some, Bytes, [], ◌∷◌}
use mr_lib.Os.{Arg, Os}
use mr_lib.Os.Io.{
  Io, Stop, halt, pure, failed, ◌>>=◌, ◌>>◌, Handler, no_handler, ◌then_do◌, syscall_ret, ignore,
}
use mr_lib.Log.{LogFile, mr_log, mr_log_info, mr_log_error, mr_log_init, mr_log_destroy}
use mr_lib.Protocol.Input.{send_input_to_mapper}
use mr_lib.Protocol.Results.{receive_output_from_reducer}
use mr_lib.Attr.{Mr}
use mr_lib.Process.{Status, Processes}
use mr_lib.Process.Calls.{pipe, close, waitpid, let_go, let_all_go, kill, reap}
use mr_lib.Process.Spawn.{Pipes, both_of, all_of, spawn_mapper_process, spawn_reducer_process}

-- the process identifiers of the children
pub record Pids : Type 0 where
  pub mapper_pid : ℕ
  pub reducer_pid : ℕ

module _ {W : Type 0} ⦃os : Os W⦄ ⦃processes : Processes W⦄ where
  unfoldable pub error : LogFile → String → Handler W
  error log_file message = mr_log_error log_file "Main" "Main" message []

  unfoldable pub log_status : LogFile → String → Status → Io W (Unit {0})
  log_status log_file process_name (Status.exited code) =
      syscall_ret
        (mr_log_info log_file "Main" "Main" "%s process exited with code %d"
          (Arg.text process_name ∷ Arg.num code ∷ []))
        no_handler
  log_status log_file process_name (Status.signaled signal) =
      syscall_ret
        (mr_log log_file "warning" "Main" "Main" "%s process was terminated by signal %d"
          (Arg.text process_name ∷ Arg.num signal ∷ []))
        no_handler
  log_status log_file process_name Status.other =
      syscall_ret
        (mr_log log_file "warning" "Main" "Main" "%s process terminated abnormally"
          (Arg.text process_name ∷ []))
        no_handler

  unfoldable pub wait_for_process : LogFile → String → ℕ → Io W (Unit {0})
  unfolding log_status
  wait_for_process log_file process_name pid = do
    status ← syscall_ret (waitpid pid) (
        mr_log_error log_file "Main" "Main" "Failed to wait for %s process"
          (Arg.text process_name ∷ []))
    log_status log_file process_name status

  unfoldable pub open_pipes : LogFile → Io W Pipes
  unfolding error
  open_pipes log_file = do
    main_to_mapper ←
        syscall_ret pipe (error log_file "Failed to create pipe for main to mapper communication")
    mapper_to_reducer ← syscall_ret pipe (
        error log_file "Failed to create pipe for mapper to reducer communication"
        then_do let_all_go (main_to_mapper.read_end ∷ main_to_mapper.write_end ∷ []))
    reducer_to_main ← syscall_ret pipe (
        error log_file "Failed to create pipe for reducer to main communication"
        then_do let_all_go (both_of main_to_mapper mapper_to_reducer))
    pure (record {
      main_to_mapper = main_to_mapper;
      mapper_to_reducer = mapper_to_reducer;
      reducer_to_main = reducer_to_main;
    })

  -- SIGTERM to the mapper, and the wait for it
  unfoldable pub stop_mapper : ℕ → Handler W
  stop_mapper mapper_pid = kill mapper_pid then_do reap mapper_pid

  unfoldable pub start_processes :
      LogFile → Pipes → (mapper_main reducer_main : Io W (Unit {0})) → Io W Pids
  unfolding error stop_mapper
  start_processes log_file p mapper_main reducer_main = do
    mapper_pid ←
        syscall_ret (spawn_mapper_process log_file p mapper_main)
          (error log_file "Failed to spawn mapper process" then_do let_all_go (all_of p))
    reducer_pid ← syscall_ret (spawn_reducer_process log_file p reducer_main) (
        error log_file "Failed to spawn reducer process"
        then_do stop_mapper mapper_pid
        then_do let_go p.main_to_mapper.write_end
        then_do let_all_go (both_of p.mapper_to_reducer p.reducer_to_main))
    pure (record { mapper_pid = mapper_pid; reducer_pid = reducer_pid })

  -- SIGTERM to both children, and the waits for them
  unfoldable pub stop_both : Pids → Handler W
  stop_both pids =
      kill pids.mapper_pid
      then_do kill pids.reducer_pid
      then_do reap pids.mapper_pid
      then_do reap pids.reducer_pid

  -- A failure of the first `close` stops the mapper only.
  unfoldable pub close_unused : LogFile → Pipes → Pids → Io W (Unit {0})
  unfolding stop_mapper
  close_unused log_file p pids = do
    let in_ = p.main_to_mapper
    let mid = p.mapper_to_reducer
    let out = p.reducer_to_main
    syscall_ret (close in_.read_end) (
        stop_mapper pids.mapper_pid
        then_do let_go in_.write_end
        then_do let_all_go (both_of mid out))
    syscall_ret (close mid.read_end) (
        stop_both pids
        then_do let_all_go (in_.write_end ∷ mid.write_end ∷ out.read_end ∷ out.write_end ∷ []))
    syscall_ret (close mid.write_end)
        (stop_both pids then_do let_all_go (in_.write_end ∷ out.read_end ∷ out.write_end ∷ []))
    syscall_ret (close out.write_end)
        (stop_both pids then_do let_go in_.write_end then_do let_all_go (both_of mid out))

  unfoldable pub exchange :
      (send_fuel receive_fuel : ℕ)
      → LogFile
      → Pipes
      → Pids
      → (input_path output_path : Bytes) → Io W (Unit {0})
  unfolding error
  exchange send_fuel receive_fuel log_file p pids input_path output_path = do
    let in_ = p.main_to_mapper
    let out = p.reducer_to_main
    syscall_ret
        (mr_log_info log_file "Main" "Main"
          "Successfully spawned mapper (PID: %d) and reducer (PID: %d) processes"
          (Arg.num pids.mapper_pid ∷ Arg.num pids.reducer_pid ∷ []))
        (stop_both pids then_do let_all_go (in_.write_end ∷ out.read_end ∷ []))
    syscall_ret (send_input_to_mapper send_fuel log_file in_.write_end input_path) (
        error log_file "Failed to send input to mapper process"
        then_do stop_both pids
        then_do let_all_go (in_.write_end ∷ out.read_end ∷ []))
    syscall_ret (close in_.write_end) (
        error log_file "Failed to close write end of main_to_mapper pipe"
        then_do stop_both pids
        then_do let_go out.read_end)
    syscall_ret (receive_output_from_reducer receive_fuel log_file out.read_end output_path) (
        error log_file "Failed to receive output from reducer process"
        then_do stop_both pids
        then_do let_go out.read_end)
    syscall_ret (close out.read_end)
        (error log_file "Failed to close read end of reducer_to_main pipe" then_do stop_both pids)

  unfoldable pub wait_for_both : LogFile → Pids → Io W (Unit {0})
  unfolding error
  wait_for_both log_file pids = do
    syscall_ret (wait_for_process log_file "Mapper" pids.mapper_pid) (
        error log_file "Failed to wait for mapper process to finish"
        then_do kill pids.reducer_pid
        then_do reap pids.reducer_pid)
    syscall_ret (wait_for_process log_file "Reducer" pids.reducer_pid)
        (error log_file "Failed to wait for reducer process to finish")

  -- the part of spawn_processes behind both forks
  unfoldable pub serve :
      (send_fuel receive_fuel : ℕ)
      → LogFile
      → Pipes
      → Pids
      → (input_path output_path : Bytes) → Io W (Unit {0})
  serve send_fuel receive_fuel log_file p pids input_path output_path = do
    close_unused log_file p pids
    exchange send_fuel receive_fuel log_file p pids input_path output_path
    wait_for_both log_file pids

  unfoldable pub spawn_processes :
      (send_fuel receive_fuel : ℕ)
      → (mapper_main reducer_main : Io W (Unit {0})) → LogFile
      → (input_path output_path : Bytes) → Io W (Unit {0})
  spawn_processes send_fuel receive_fuel mapper_main reducer_main log_file input_path output_path =
      do
        syscall_ret
            (mr_log_info log_file "Main" "Main" "Spawning mapper and reducer processes..." [])
            no_handler
        p ← open_pipes log_file
        pids ← start_processes log_file p mapper_main reducer_main
        serve send_fuel receive_fuel log_file p pids input_path output_path

  -- the log of the job; a job that `mr_init` has made has a name for it
  open_log : Option Bytes → Io W LogFile
  open_log none = λ w. (halt Stop.undefined, w)
  open_log (some path) = mr_log_init path

  -- what the children run depends on the log
  unfoldable pub mr_run :
      (send_fuel receive_fuel : ℕ)
      → (mapper_main reducer_main : LogFile → Io W (Unit {0})) → Mr
      → (input_path output_path : Bytes) → Io W (Unit {0})
  unfolding open_log
  mr_run send_fuel receive_fuel mapper_main reducer_main mr input_path output_path = do
    log_file ← syscall_ret (open_log mr.attr.log_file) no_handler
    syscall_ret
        (mr_log_info log_file "Main" "Main" "Starting MapReduce job with input: %s and output: %s"
          (Arg.bytes input_path ∷ Arg.bytes output_path ∷ []))
        (ignore (mr_log_destroy log_file))
    syscall_ret
        (spawn_processes send_fuel receive_fuel (mapper_main log_file) (reducer_main log_file)
          log_file input_path output_path)
        (ignore (mr_log_destroy log_file))
    syscall_ret (mr_log_destroy log_file) no_handler

  -- a null pointer is refused with EINVAL
  unfoldable pub mr_start :
      (send_fuel receive_fuel : ℕ)
      → (mapper_main reducer_main : LogFile → Io W (Unit {0})) → Option Mr
      → (input_path output_path : Option Bytes) → Io W (Unit {0})
  mr_start send_fuel receive_fuel mapper_main reducer_main (some mr) (some input_path)
        (some output_path) =
      syscall_ret (mr_run send_fuel receive_fuel mapper_main reducer_main mr input_path output_path)
        no_handler
  mr_start send_fuel receive_fuel mapper_main reducer_main _ _ _ = failed
