-- ===== src/Protocol/Lines.antt =====
-- The receiver of lines in the mapper process.
pub mod Laws
pub mod Receive
use Prim.Native.String.{String}
use mr_lib.Common.{
  ℕ, zero, suc, ◌+◌, ◌%◌, Bool, true, false, Option, none, some, [], Bytes, ◌==◌, size_limit,
  if◌then◌else◌,
}
use mathlib.Core.Bool.{not}
use mr_lib.Os.{Os}
use mr_lib.Os.Io.{Io, pure, ◌>>=◌, ◌>>◌, Handler, ◌then_do◌, syscall_ret, assert, free}
use mr_lib.Log.{LogFile, mr_log_error}
use mr_lib.Protocol.Stream.{out_of_fuel}
use mr_lib.Protocol.Headers.{FileNameHeader, file_name_header_of, line_header_of, read_object}
use mr_lib.Protocol.Pair.{Buffer, read_some, allocate}

-- `mr_main_receiver_t`
pub record MainReceiver : Type 0 where
  pub current_file_name : Buffer
  pub current_file_name_len : ℕ
  pub current_line_number : ℕ
  pub file_finished : Bool

-- `mr_file_line_t`
pub record FileLine : Type 0 where
  pub file_name : Buffer
  pub file_name_len : ℕ
  pub line_number : ℕ
  pub line : Buffer
  pub line_len : ℕ

abbrev pub null : Buffer
null = record { address = 0; bytes = [] }

-- `mr_main_receiver_init`
abbrev pub main_receiver_init : MainReceiver
main_receiver_init = record {
  current_file_name = null;
  current_file_name_len = 0;
  current_line_number = 0;
  file_finished = true;
}

module _ {W : Type 0} ⦃os : Os W⦄ where
  mapper_error : LogFile → String → Handler W
  mapper_error log_file message = mr_log_error log_file "Mapper" "Controller" message []

  -- `mr_main_receiver_destroy`
  pub main_receiver_destroy : MainReceiver → Io W MainReceiver
  main_receiver_destroy receiver = λ w.
      pure (record receiver { current_file_name = null })
        (free receiver.current_file_name.address w)

  -- The branch for `file_finished`; `false` at the end of the pipe.
  pub open_file : LogFile → ℕ → MainReceiver → Io W (MainReceiver × Bool)
  open_file log_file read_fd receiver = do
    (bytes_read, object) ←
        syscall_ret (read_object read_fd 8)
          (mapper_error log_file "Failed to read file name header from main process")
    receiver' ← main_receiver_destroy receiver
    if bytes_read == 0 then pure (receiver', false) else do
      let len = (file_name_header_of object).file_name_length
      name ←
          allocate ((len + 1) % size_limit) 1
            (mapper_error log_file "Failed to allocate memory for file name")
      (_, text) ←
          syscall_ret (read_object read_fd len)
            (mapper_error log_file "Failed to read file name from main process" then_do free name)
      pure (
        record {
          current_file_name = record { address = name; bytes = text };
          current_file_name_len = len;
          current_line_number = 1;
          file_finished = false;
        },
        true,
      )

  -- A line that is not the end of a file: copies of the name and of the text.
  pub take_line : LogFile → ℕ → MainReceiver → ℕ → Io W (MainReceiver × Option FileLine)
  take_line log_file read_fd receiver line_length = do
    file_name_copy ←
        allocate ((receiver.current_file_name_len + 1) % size_limit) 1
          (mapper_error log_file "Failed to allocate memory for line file name")
    line_content ←
        allocate ((line_length + 1) % size_limit) 1
          (mapper_error log_file "Failed to allocate memory for line content")
    text ← read_some read_fd line_length (
        mapper_error log_file "Failed to read line data from main process"
        then_do free line_content)
    pure (
      record receiver { current_line_number = (receiver.current_line_number + 1) % size_limit },
      some (record {
        file_name = record { address = file_name_copy; bytes = receiver.current_file_name.bytes };
        file_name_len = receiver.current_file_name_len;
        line_number = receiver.current_line_number;
        line = record { address = line_content; bytes = text };
        line_len = line_length;
      }),
    )

  pub open_if_finished : LogFile → ℕ → MainReceiver → Io W (MainReceiver × Bool)
  open_if_finished log_file read_fd receiver =
      if receiver.file_finished then open_file log_file read_fd receiver else pure (receiver, true)

  -- The rest of a round: the end of the file, after which the loop goes on, or a line.
  pub line_or_end :
      LogFile
      → ℕ
      → (MainReceiver → Io W (MainReceiver × Option FileLine))
      → MainReceiver
      → Io W (MainReceiver × Option FileLine)
  line_or_end log_file read_fd again current = do
    (bytes_read, object) ←
        syscall_ret (read_object read_fd 16)
          (mapper_error log_file "Failed to read line header from main process")
    assert (not (bytes_read == 0))
    let l_header = line_header_of object
    if l_header.eof
        then again (record current { file_finished = true })
        else take_line log_file read_fd current l_header.line_length

  -- The receiver after the call beside the line; no line is the return of 1, at the end of the
  -- pipe. `fuel` bounds the rounds of the loop: one for each file that ends, and one more.
  pub receive_line_from_main_fd :
      ℕ → LogFile → ℕ → MainReceiver → Io W (MainReceiver × Option FileLine)
  receive_line_from_main_fd zero log_file read_fd receiver = out_of_fuel
  receive_line_from_main_fd (suc fuel) log_file read_fd receiver = do
    (current, live) ← open_if_finished log_file read_fd receiver
    if not live
        then pure (current, none)
        else line_or_end log_file read_fd (receive_line_from_main_fd fuel log_file read_fd) current
