-- ===== src/Tests/Reduction.antt =====
-- Two nodes on their way to a worker, and a line of text in words.
use mr_lib.Common.{
  ℕ, ◌≡◌, refl, ◌+◌, true, some, [], ◌∷◌, Bytes, size_bytes, of_bytes, leb, ◌&&◌, ◌||◌,
  if◌then◌else◌, arith,
}
use mr_lib.Os.Io.{Io}
use mr_lib.Log.{LogFile}
use mr_lib.Protocol.Pair.{send_pair_to_reducer_fd}
use mr_lib.Protocol.Lines.{FileLine}
use mr_lib.Queue.{Queue}
use mr_lib.Reducer.Table.{TokenNode, Table}
use mr_lib.Reducer.Workers.{ReducerFunction, reduce_all, node_at}
use mr_lib.Reducer.Workers.Draining.{
  IsAlone, AreQueued, queued, none_queued, outside, turns, reduce_all-turns,
}
use mr_lib.Reducer.Processing.{Crew, Blocks, push_table}
use mr_lib.Reducer.Processing.Order.{nodes_of, feed, push_table-feed}
use mr_lib.WordCount.{Ctype, word_count_mapper, word_count_reducer}
use mr_lib.WordCount.Words.{words, emit_all, word_count_mapper-words}
use mr_lib.Tests.Machine.{Machine, machine_os}
use mr_lib.Tests.Jobs.{machine, alone}

abbrev pub log_file : LogFile
log_file = record { file = 1; sem = 1 }

abbrev crew : Crew Machine
crew = record {
  create = λ i s. (true, s);
  join = λ i s. (some 0, s);
  mutex_init = λ w. (true, w);
  mutex_destroy = λ w. w;
}

abbrev node : ℕ → Bytes → TokenNode
node address text = record {
  address = address;
  token = record { address = address + 1; bytes = text };
  array = 0;
  values = [];
  count = 0;
  capacity = 0;
}

abbrev table : Table
table = (node 8 (97 ∷ []) ∷ []) ∷ [] ∷ (node 16 (98 ∷ []) ∷ []) ∷ []

abbrev blocks : Blocks
blocks = record { threads = 1; args = 2 }

-- the queue of the two nodes, closed
abbrev queue : Queue
queue = record {
  buffer = size_bytes 8 ∷ size_bytes 16 ∷ [];
  address = 1;
  capacity = 2;
  element_size = 8;
  count = 2;
  closed = true;
}

push_table-feed_example :
    push_table alone crew log_file 5 2 blocks table 0 (queue, machine)
    ≡ feed alone crew log_file 5 2 blocks
        (node 8 (97 ∷ []) ∷ node 16 (98 ∷ []) ∷ [])
        0
        (queue, machine)
push_table-feed_example = push_table-feed alone crew log_file 5 2 blocks table 0 (queue, machine)

pub alone-IsAlone : IsAlone alone
alone-IsAlone = record { lock = λ s. refl; unlock = λ w. refl; signal = λ w. refl }

queue-AreQueued :
    AreQueued
      (nodes_of table)
      (size_bytes 16 ∷ size_bytes 8 ∷ [])
      (node 16 (98 ∷ []) ∷ node 8 (97 ∷ []) ∷ [])
unfolding node_at size_bytes of_bytes
queue-AreQueued = queued refl (queued refl none_queued)

abbrev reducer : ReducerFunction Machine
reducer token values count emit = word_count_reducer emit token count

abbrev pub emit : (token value : Bytes) → Io Machine (Unit {0})
emit = send_pair_to_reducer_fd log_file 1

reduce_all-turns_example :
    outside
      (reduce_all alone reducer emit 3 1 log_file "Worker 0" (nodes_of table) (queue, machine))
    ≡ turns alone reducer emit log_file "Worker 0"
        (node 16 (98 ∷ []) ∷ node 8 (97 ∷ []) ∷ [])
        machine
unfolding size_bytes
reduce_all-turns_example =
    reduce_all-turns alone reducer emit log_file "Worker 0" 3 0 (nodes_of table)
      (node 16 (98 ∷ []) ∷ node 8 (97 ∷ []) ∷ []) queue machine alone-IsAlone refl queue-AreQueued
      (omega arith)

-- the locale "C"
abbrev pub ctype : Ctype
ctype = record {
  isalnum = λ b. (leb 48 b && leb b 57) || (leb 65 b && leb b 90) || (leb 97 b && leb b 122);
  tolower = λ b. if leb 65 b && leb b 90 then b + 32 else b;
}

-- Hi, you!
abbrev pub text : Bytes
text = 72 ∷ 105 ∷ 44 ∷ 32 ∷ 121 ∷ 111 ∷ 117 ∷ 33 ∷ []

words_test : words ctype text ≡ (104 ∷ 105 ∷ []) ∷ (121 ∷ 111 ∷ 117 ∷ []) ∷ []
words_test = refl

abbrev pub line : FileLine
line = record {
  file_name = record { address = 1; bytes = [] };
  file_name_len = 0;
  line_number = 0;
  line = record { address = 2; bytes = text };
  line_len = 8;
}

word_count_mapper-words_example :
    word_count_mapper ctype emit line
    ≡ emit_all ctype emit ((104 ∷ 105 ∷ []) ∷ (121 ∷ 111 ∷ 117 ∷ []) ∷ [])
word_count_mapper-words_example = word_count_mapper-words ctype emit line
