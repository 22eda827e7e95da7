-- ===== src/Tests/Wire.antt =====
-- The theorems on src/protocol.c and src/reducer.c at concrete messages.
use mr_lib.Common.{
  ℕ, ◌≡◌, refl, List, [], ◌∷◌, ◌++◌, Bytes, length, arith, replicate, length-replicate,
}
use mr_lib.Os.Yields.{Yields}
use mr_lib.Log.{LogFile}
use mr_lib.Protocol.Stream.{read_n, write_n}
use mr_lib.Protocol.Stream.Laws.{Took, read_n-Took, Wrote, write_n-Wrote}
use mr_lib.Protocol.Pair.{receive_pair_from_mapper_fd}
use mr_lib.Protocol.Pair.Laws.{pair_bytes, Delivered, receive_pair_from_mapper_fd-Delivered}
use mr_lib.Protocol.Results.{receive_output_from_reducer}
use mr_lib.Protocol.Results.Output.{wire, output, Holds, receive_output_from_reducer-output}
use mr_lib.Protocol.Lines.{main_receiver_init, receive_line_from_main_fd}
use mr_lib.Protocol.Lines.Laws.{
  name_header, line_header, eof_header, FilesOn, all_lines, end, line, nil, file, between,
}
use mr_lib.Protocol.Lines.Receive.{Next, receive_line_from_main_fd-Next}
use mr_lib.Protocol.Input.{send_input_to_mapper}
use mr_lib.Protocol.Input.Sender.{SentInput, send_input_to_mapper-SentInput}
use mr_lib.Reducer.Table.{Chain, empty_table, table_size}
use mr_lib.Reducer.Collect.{collect}
use mr_lib.Reducer.Collect.Laws.{Grouped, all_pairs, collect-Grouped}
use mr_lib.Tests.Machine.{Machine, machine_os, machine_law}

abbrev log : LogFile
log = record { file = 1; sem = 1 }

abbrev no_lines : Bytes → List (ℕ × Bytes)
no_lines _ = []

-- a machine with these bytes to read, and files of two lines
abbrev machine : Bytes → Machine
machine bs = record {
  input = bs;
  output = [];
  lines = λ _. (b'x', b'\n' ∷ []) ∷ (b'y', []) ∷ [];
  unread = λ _. [];
  stored = λ _. [];
}

abbrev token : Bytes
token = b'a' ∷ b'b' ∷ []

abbrev value : Bytes
value = 1 ∷ 0 ∷ 5 ∷ 7 ∷ []

abbrev pairs : List (Bytes × Bytes)
pairs = (token, value) ∷ (b'c' ∷ [], []) ∷ (token, 9 ∷ []) ∷ []

read_n_example :
    Yields (Took machine_law 0 5 (machine value)) machine_law.Fault (read_n 0 5 (machine value))
read_n_example = read_n-Took machine_law 0 5 (machine value)

write_n_example :
    Yields
      (λ k w'. (k ≡ length value) × Wrote machine_law 1 value (machine []) w')
      machine_law.Fault
      (write_n 1 value (machine []))
write_n_example = write_n-Wrote machine_law 1 value (machine [])

receive_output_example :
    Yields
      (λ _ w'. (w'.input ≡ []) × Holds machine_law log 0 (b'o' ∷ []) (output pairs) w')
      machine_law.Fault
      (receive_output_from_reducer 4 log 0 (b'o' ∷ []) (machine (wire pairs)))
unfolding machine_law
receive_output_example =
    receive_output_from_reducer-output machine_law log 0 4 (b'o' ∷ []) pairs (machine (wire pairs))
      (omega arith)
      (omega arith, omega arith, (omega arith, omega arith, (omega arith, omega arith, tt))) refl

collect_example :
    Yields
      (Grouped machine_law 0 pairs empty_table 0 (machine (all_pairs pairs)))
      machine_law.Fault
      (collect 4 log 0 empty_table 0 (machine (all_pairs pairs)))
unfolding machine_law
collect_example =
    collect-Grouped machine_law pairs 4 log 0 empty_table 0 (machine (all_pairs pairs))
      (omega arith, omega arith, (omega arith, omega arith, (omega arith, omega arith, tt)))
      (omega arith) (length-replicate {A = Chain} table_size []) refl

abbrev lines : List Bytes
lines = (b'x' ∷ []) ∷ [] ∷ []

abbrev padding : Bytes
padding = replicate 7 9

abbrev files : List (Bytes × List Bytes)
files = (b'e' ∷ [], []) ∷ (b'f' ∷ [], lines) ∷ []

abbrev sent_lines : Bytes
sent_lines =
    line_header (b'x' ∷ []) padding
    ++ ((b'x' ∷ []) ++ (line_header [] padding ++ ([] ++ eof_header padding)))

abbrev sent_files : Bytes
sent_files =
    name_header (b'e' ∷ [])
    ++ ((b'e' ∷ [])
        ++ (eof_header padding ++ (name_header (b'f' ∷ []) ++ ((b'f' ∷ []) ++ (sent_lines ++ [])))))

files-on : FilesOn files sent_files
files-on = file (b'e' ∷ []) (omega arith) (end padding refl) (
    file (b'f' ∷ []) (omega arith)
      (line padding (b'x' ∷ []) refl (omega arith)
        (line padding [] refl (omega arith) (end padding refl)))
      nil)

receive_line_example :
    Yields
      (Next machine_law log 0 2 (all_lines files))
      machine_law.Fault
      (receive_line_from_main_fd 3 log 0 main_receiver_init (machine sent_files))
unfolding machine_law
receive_line_example =
    receive_line_from_main_fd-Next machine_law log 0 3 main_receiver_init 2 (all_lines files)
      (machine sent_files) (between files 2 (all_lines files) refl files-on refl refl) (omega arith)

abbrev two_lines : List Bytes
two_lines = (b'x' ∷ b'\n' ∷ []) ∷ (b'y' ∷ []) ∷ []

-- a directory with the entries `.` and `a`
send_input_example :
    Yields
      (λ _ w'.
        SentInput machine_law log 1 (λ _. two_lines) ((b'/' ∷ b'a' ∷ []) ∷ []) (machine []) w')
      machine_law.Fault
      (send_input_to_mapper 3 log 1 [] (machine []))
unfolding machine_law
send_input_example =
    send_input_to_mapper-SentInput machine_law log 1 3 [] (machine []) (omega arith)
      (λ _. (omega arith, (omega arith, tt))) ((omega arith, (omega arith, tt)), omega arith, tt)

receive_pair_example :
    Yields
      (Delivered machine_law 0 token value (5 ∷ []) (machine (pair_bytes token value ++ (5 ∷ []))))
      machine_law.Fault
      (receive_pair_from_mapper_fd log 0 (machine (pair_bytes token value ++ (5 ∷ []))))
unfolding machine_law
receive_pair_example =
    receive_pair_from_mapper_fd-Delivered machine_law log 0 token value (5 ∷ [])
      (machine (pair_bytes token value ++ (5 ∷ []))) (omega arith) (omega arith) refl
