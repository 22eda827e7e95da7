-- ===== src/Protocol/Results.antt =====
-- The results that the reducer sends to the main process, and the output file that holds them.
pub mod Laws
pub mod Output
use Prim.Native.String.{String}
use mr_lib.Common.{
  ℕ, zero, suc, Bool, true, false, [], ◌∷◌, Bytes, length, ltb, ◌==◌, size_bytes, if◌then◌else◌,
}
use mr_lib.Os.{Arg, Os}
use mr_lib.Os.Io.{
  Io, pure, ◌>>=◌, ◌>>◌, Handler, no_handler, ◌then_do◌, syscall_ret, assert, free, ignore,
}
use mr_lib.Os.Calls
use mr_lib.Log.{LogFile, c_string, mr_log_info, mr_log_error}
use mr_lib.Protocol.Stream.{write_n, out_of_fuel}
use mr_lib.Protocol.Headers.{ResultHeader, result_header_bytes, result_header_of, read_object}
use mr_lib.Protocol.Pair.{write_some, allocate}

module _ {W : Type 0} ⦃os : Os W⦄ where
  unfoldable pub send_result_to_main_fd : LogFile → ℕ → (token result : Bytes) → Io W (Unit {0})
  send_result_to_main_fd log_file write_fd token result = do
    let text = c_string token
    let header : ResultHeader = record { token_length = length text; result_size = length result }
    syscall_ret (write_n write_fd (result_header_bytes header)) (
        mr_log_error log_file "Reducer" "Controller" "Failed to send result header to main process"
          [])
    write_some write_fd text
        (mr_log_error log_file "Reducer" "Controller" "Failed to send token to main process" [])
    write_some write_fd result (
        mr_log_error log_file "Reducer" "Controller" "Failed to send result data to main process"
          [])
    pure tt

  -- the handlers of the receiving loop: a message, a block to free, and the output file
  main_error : LogFile → String → Handler W
  main_error log_file message = mr_log_error log_file "Main" "Main" message []

  close : ℕ → Handler W
  close out_file = ignore (Calls.fclose out_file)

  -- `read_n` into a block, `fwrite` of it, and `free`
  copy_block :
      LogFile → (read_fd out_file block n : ℕ) → (unread unwritten : String) → Io W (Unit {0})
  unfolding main_error close
  copy_block log_file read_fd out_file block n unread unwritten = do
    (bytes_read, bytes) ←
        syscall_ret (read_object read_fd n)
          (main_error log_file unread then_do free block then_do close out_file)
    assert (bytes_read == n)
    syscall_ret (Calls.fwrite out_file 1 n bytes)
        (main_error log_file unwritten then_do free block then_do close out_file)
    λ w. pure tt (free block w)

  receive_token : LogFile → (read_fd out_file n : ℕ) → Io W (Unit {0})
  unfolding copy_block
  receive_token log_file read_fd out_file n =
      if ltb 0 n
      then (do
        token ←
            allocate n n
              (main_error log_file "Failed to allocate memory for token" then_do close out_file)
        copy_block log_file read_fd out_file token n "Failed to read token from reducer"
            "Failed to write token to file")
      else pure tt

  -- a block of no bytes is not freed
  receive_value : LogFile → (read_fd out_file n : ℕ) → Io W (Unit {0})
  unfolding copy_block
  receive_value log_file read_fd out_file n = do
    result ←
        allocate n n
          (main_error log_file "Failed to allocate memory for result" then_do close out_file)
    if ltb 0 n
        then copy_block log_file read_fd out_file result n "Failed to read result from reducer"
            "Failed to write result to file"
        else pure tt

  -- one round of the loop: `false` at the end of file
  pub receive_result : LogFile → (read_fd out_file : ℕ) → Io W Bool
  unfolding receive_token receive_value
  receive_result log_file read_fd out_file = do
    (bytes_read, object) ←
        syscall_ret (read_object read_fd 16)
          (main_error log_file "Failed to read result header from reducer" then_do close out_file)
    let header = result_header_of object
    if bytes_read == 0 then pure false else do
      assert (bytes_read == 16)
      syscall_ret (Calls.fwrite out_file 8 1 (size_bytes header.token_length))
          (main_error log_file "Failed to write token length to file" then_do close out_file)
      receive_token log_file read_fd out_file header.token_length
      syscall_ret (Calls.fwrite out_file 8 1 (size_bytes header.result_size))
          (main_error log_file "Failed to write result size to file" then_do close out_file)
      receive_value log_file read_fd out_file header.result_size
      pure true

  receive_results : ℕ → LogFile → (read_fd out_file : ℕ) → Io W (Unit {0})
  unfolding receive_result
  receive_results zero log_file read_fd out_file = out_of_fuel
  receive_results (suc fuel) log_file read_fd out_file = do
    more ← receive_result log_file read_fd out_file
    if more then receive_results fuel log_file read_fd out_file else pure tt

  -- `fuel` bounds the number of results, one more for the end of file
  pub receive_output_from_reducer : ℕ → LogFile → ℕ → Bytes → Io W (Unit {0})
  unfolding receive_results
  receive_output_from_reducer fuel log_file read_fd output_path = do
    syscall_ret
        (mr_log_info log_file "Main" "Main" "Receiving output from reducer and writing to '%s'"
          (Arg.bytes output_path ∷ []))
        no_handler
    out_file ← syscall_ret (Calls.fopen output_path "wb") (
        mr_log_error log_file "Main" "Main" "Failed to open output file '%s'"
          (Arg.bytes output_path ∷ []))
    receive_results fuel log_file read_fd out_file
    syscall_ret (Calls.fclose out_file) (
        mr_log_error log_file "Main" "Main" "Failed to close output file '%s'"
          (Arg.bytes output_path ∷ []))
    syscall_ret (mr_log_info log_file "Main" "Main" "Finished receiving output from reducer" [])
        no_handler
    pure tt
