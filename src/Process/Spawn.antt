-- ===== src/Process/Spawn.antt =====
-- spawn_mapper_process and spawn_reducer_process of src/core.c. What a process runs is an argument:
-- `mapper_process_main` or `reducer_process_main`, applied to its arguments.
use Prim.Native.String.{String}
use mr_lib.Common.{ℕ, List, [], ◌∷◌, ◌==◌, if◌then◌else◌}
use mr_lib.Os.{Os}
use mr_lib.Os.Io.{Io, pure, ◌>>=◌, ◌>>◌, ◌then_do◌, syscall_ret}
use mr_lib.Log.{LogFile, mr_log_info, mr_log_error}
use mr_lib.Process.{Pipe, Processes, or_exit, exit_with}
use mr_lib.Process.Calls.{fork, close, dup2, let_all_go}

-- STDIN_FILENO and STDOUT_FILENO
abbrev pub stdin_fileno : ℕ
stdin_fileno = 0

abbrev pub stdout_fileno : ℕ
stdout_fileno = 1

-- the three pipes
pub record Pipes : Type 0 where
  pub main_to_mapper : Pipe
  pub mapper_to_reducer : Pipe
  pub reducer_to_main : Pipe

-- `for (i = 0; i < 2; i++) { close(p[i]); close(q[i]); }`
abbrev pub both_of : (p q : Pipe) → List ℕ
both_of p q = p.read_end ∷ q.read_end ∷ p.write_end ∷ q.write_end ∷ []

abbrev pub all_of : Pipes → List ℕ
all_of p =
    p.main_to_mapper.read_end ∷ p.mapper_to_reducer.read_end ∷ p.reducer_to_main.read_end
    ∷ p.main_to_mapper.write_end ∷ p.mapper_to_reducer.write_end ∷ p.reducer_to_main.write_end ∷ []

module _ {W : Type 0} ⦃os : Os W⦄ ⦃processes : Processes W⦄ where
  -- a call in a child that closes `rest` and exits if it fails
  unfoldable pub child_step :
      {A : Type 0}
      → (pname : String) → LogFile
      → Io W A
      → (message : String) → (rest : List ℕ) → Io W A
  child_step pname log_file m message rest =
      or_exit m (mr_log_error log_file pname "Controller" message [] then_do let_all_go rest)

  -- the part of the mapper process in front of `mapper_process_main`
  unfoldable pub wire_mapper : LogFile → Pipes → Io W (Unit {0})
  unfolding child_step
  wire_mapper log_file p = do
    let in_ = p.main_to_mapper
    let out = p.mapper_to_reducer
    let back = p.reducer_to_main
    syscall_ret (mr_log_info log_file "Mapper" "Controller" "Mapper process started." [])
        (let_all_go (all_of p))
    child_step "Mapper" log_file (close in_.write_end)
        "Failed to close unused write end of main_to_mapper pipe" (in_.read_end ∷ both_of out back)
    child_step "Mapper" log_file (close out.read_end)
        "Failed to close unused read end of mapper_to_reducer pipe"
        (in_.read_end ∷ out.write_end ∷ back.read_end ∷ back.write_end ∷ [])
    child_step "Mapper" log_file (close back.read_end)
        "Failed to close unused read end of reducer_to_main pipe"
        (in_.read_end ∷ out.write_end ∷ back.write_end ∷ [])
    child_step "Mapper" log_file (close back.write_end)
        "Failed to close unused write end reducer_to_main pipe" (in_.read_end ∷ out.write_end ∷ [])
    child_step "Mapper" log_file (dup2 in_.read_end stdin_fileno)
        "Failed to redirect stdin for mapper process" (in_.read_end ∷ out.write_end ∷ [])
    child_step "Mapper" log_file (close in_.read_end)
        "Failed to close read end of main_to_mapper pipe" (out.write_end ∷ [])
    child_step "Mapper" log_file (dup2 out.write_end stdout_fileno)
        "Failed to redirect stdout for mapper process" (out.write_end ∷ [])
    child_step "Mapper" log_file (close out.write_end)
        "Failed to close write end of mapper_to_reducer pipe" []

  -- A failed message makes the child return -1 where it should exit.
  unfoldable pub spawn_mapper_process : {A : Type 0} → LogFile → Pipes → (main : Io W A) → Io W ℕ
  unfolding wire_mapper
  spawn_mapper_process log_file p main = do
    mapper_pid ← syscall_ret fork (
        mr_log_error log_file "Main" "Main" "Failed to fork mapper process" []
        then_do let_all_go (both_of p.main_to_mapper p.mapper_to_reducer))
    if mapper_pid == 0 then (do wire_mapper log_file p; exit_with main) else pure mapper_pid

  -- the part of the reducer process in front of `reducer_process_main`
  unfoldable pub wire_reducer : LogFile → Pipes → Io W (Unit {0})
  unfolding child_step
  wire_reducer log_file p = do
    let in_ = p.mapper_to_reducer
    let out = p.reducer_to_main
    syscall_ret (mr_log_info log_file "Reducer" "Controller" "Reducer process started." [])
        (let_all_go (all_of p))
    child_step "Reducer" log_file (close p.main_to_mapper.read_end)
        "Failed to close unused read end of main_to_mapper pipe"
        (p.main_to_mapper.write_end ∷ both_of in_ out)
    child_step "Reducer" log_file (close p.main_to_mapper.write_end)
        "Failed to close unused write end of main_to_mapper pipe" (both_of in_ out)
    child_step "Reducer" log_file (close in_.write_end)
        "Failed to close unused write end of mapper_to_reducer pipe"
        (in_.read_end ∷ out.read_end ∷ out.write_end ∷ [])
    child_step "Reducer" log_file (close out.read_end)
        "Failed to close unused read end of reducer_to_main pipe"
        (in_.read_end ∷ out.write_end ∷ [])
    child_step "Reducer" log_file (dup2 in_.read_end stdin_fileno)
        "Failed to redirect stdin for reducer process" (in_.read_end ∷ out.write_end ∷ [])
    child_step "Reducer" log_file (close in_.read_end)
        "Failed to close read end of mapper_to_reducer pipe" (out.write_end ∷ [])
    child_step "Reducer" log_file (dup2 out.write_end stdout_fileno)
        "Failed to redirect stdout for reducer process" (out.write_end ∷ [])
    child_step "Reducer" log_file (close out.write_end)
        "Failed to close write end of reducer_to_reducer pipe" []

  unfoldable pub spawn_reducer_process : {A : Type 0} → LogFile → Pipes → (main : Io W A) → Io W ℕ
  unfolding wire_reducer
  spawn_reducer_process log_file p main = do
    reducer_pid ← syscall_ret fork (
        mr_log_error log_file "Main" "Main" "Failed to fork reducer process" []
        then_do let_all_go (both_of p.mapper_to_reducer p.reducer_to_main))
    if reducer_pid == 0 then (do wire_reducer log_file p; exit_with main) else pure reducer_pid
