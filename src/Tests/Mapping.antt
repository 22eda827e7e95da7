-- ===== src/Tests/Mapping.antt =====
-- A line on its way to a worker of the mapper.
use mr_lib.Common.{ℕ, ◌≡◌, refl, true, [], ◌∷◌, ◌==◌, map, if◌then◌else◌, Bytes, arith}
use mr_lib.Queue.{Queue}
use mr_lib.Queue.Laws.{stack}
use mr_lib.Reducer.Workers.Draining.{outside}
use mr_lib.Mapper.{MapperFunction, map_all, line_bytes, line_at}
use mr_lib.Mapper.Draining.{turns, map_all-turns}
use mr_lib.WordCount.{word_count_mapper}
use mr_lib.Tests.Machine.{Machine, machine_os}
use mr_lib.Tests.Jobs.{machine, alone}
use mr_lib.Tests.Reduction.{log_file, ctype, emit, line, text, alone-IsAlone}

-- the block of the text is at 2
abbrev text_at : ℕ → Bytes
text_at address = if address == 2 then text else []

-- the queue of the line, closed
abbrev queue : Queue
queue = record {
  buffer = line_bytes line ∷ [];
  address = 1;
  capacity = 1;
  element_size = 40;
  count = 1;
  closed = true;
}

abbrev mapper : MapperFunction Machine
mapper line emit = word_count_mapper ctype emit line

map_all-turns_example :
    outside (map_all alone mapper emit text_at 2 1 log_file "Worker 0" (queue, machine))
    ≡ turns alone mapper emit text_at log_file "Worker 0"
        (map (line_at text_at) (stack queue))
        machine
map_all-turns_example =
    map_all-turns alone mapper emit text_at log_file "Worker 0" 2 0 queue machine alone-IsAlone refl
      (omega arith)
