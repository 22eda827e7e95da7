-- ===== src/Protocol/Ends.antt =====
-- The functions at the end of src/protocol.c, which pass a standard descriptor.
use mr_lib.Common.{ℕ, Option, Bytes}
use mr_lib.Os.{Os}
use mr_lib.Os.Io.{Io}
use mr_lib.Log.{LogFile}
use mr_lib.Process.Spawn.{stdin_fileno, stdout_fileno}
use mr_lib.Protocol.Lines.{MainReceiver, FileLine, receive_line_from_main_fd}
use mr_lib.Protocol.Pair.{Pair, send_pair_to_reducer_fd, receive_pair_from_mapper_fd}
use mr_lib.Protocol.Results.{send_result_to_main_fd}

module _ {W : Type 0} ⦃os : Os W⦄ where
  abbrev pub receive_line_from_main :
      (fuel : ℕ) → LogFile → MainReceiver → Io W (MainReceiver × Option FileLine)
  receive_line_from_main fuel log_file receiver =
      receive_line_from_main_fd fuel log_file stdin_fileno receiver

  abbrev pub send_pair_to_reducer : LogFile → (token value : Bytes) → Io W (Unit {0})
  send_pair_to_reducer log_file token value =
      send_pair_to_reducer_fd log_file stdout_fileno token value

  abbrev pub receive_pair_from_mapper : LogFile → Io W (Option Pair)
  receive_pair_from_mapper log_file = receive_pair_from_mapper_fd log_file stdin_fileno

  abbrev pub send_result_to_main : LogFile → (token result : Bytes) → Io W (Unit {0})
  send_result_to_main log_file token result =
      send_result_to_main_fd log_file stdout_fileno token result
