-- ===== src/Tests/Words.antt =====
-- The word count of two lines, from the text to the output file.
use mathlib.Core.List.{Perm}
use mathlib.Core.List.Perm
use mr_lib.Common.{
  ℕ, ◌+◌, ◌<◌, ◌≡◌, refl, ap, sym, ◌∙◌, of_bytes, Bool, true, false, List, [], ◌∷◌, ◌++◌, map,
  Bytes, length, get_or, get_or-replicate, get_or-set, length-replicate, arith, size_bytes, ◌==◌,
  if◌then◌else◌,
}
use mr_lib.Os.Io.{Io, Outcome, ok}
use mr_lib.Os.Yields
use mr_lib.Os.Yields.{Yields, at_result}
use mr_lib.Log.{LogFile, c_string}
use mr_lib.Protocol.Pair.{Pair, Buffer}
use mr_lib.Protocol.Lines.{FileLine}
use mr_lib.Queue.{Queue, Threads}
use mr_lib.Queue.Laws.{stack}
use mr_lib.Reducer.Table.{
  TokenNode, Chain, table_size, Place, Table, empty_table, write_back, hash_function,
}
use mr_lib.Reducer.Table.Chain.{values_in}
use mr_lib.Reducer.Table.Lookup.{
  Stores, lookup, lookup-empty_table, Located, hash_function-small, new_node-Grown,
  write_back-Stores,
}
use mr_lib.Reducer.Table.Shape.{IsTable, Placed, empty_table-IsTable, write_back-IsTable}
use mr_lib.Reducer.Collect.{store_pair, collect}
use mr_lib.Reducer.Collect.Laws.{all_pairs}
use mr_lib.Reducer.Collect.Nodes.{store_pair-IsTable}
use mr_lib.Reducer.Workers.Draining.{IsAlone, AreQueued, queued, none_queued, outside}
use mr_lib.Mapper.{map_all, line_at, line_bytes}
use mr_lib.Protocol.Input.{same_text}
use mr_lib.Protocol.Results.{receive_output_from_reducer}
use mr_lib.Protocol.Results.Output.{output, Holds}
use mr_lib.Reducer.Workers.{reduce_all, node_at}
use mr_lib.WordCount.Reducing.{summing, reduce_all-Sends, reduce_all-output}
use mr_lib.Emit.{Counted, Mutex, mapper_emit, reducer_emit}
use mr_lib.Emit.Alone.{IsLone, beside_count}
use mr_lib.WordCount.Pipeline.{word_counter, queued_words, map_all-Sends, map_all-collect}
use mr_lib.WordCount.Totals.{IsPlain, all_words, pair_of, occurrences}
use mr_lib.WordCount.Sending.{AreShort}
use mr_lib.WordCount.Nodes.{CountsWords, IsTable-CountsWords, collect-CountsWords}
use mr_lib.Tests.Machine.{Machine, machine_os, machine_law}
use mr_lib.Tests.Reduction.{log_file, ctype, text}

abbrev pub machine : Bytes → Machine
machine bs = record { input = bs; output = []; lines = λ _. []; unread = λ _. []; stored = λ _. [] }

pub ctype-IsPlain : IsPlain ctype
ctype-IsPlain b h = ground arith

abbrev pub hi : Bytes
hi = 104 ∷ 105 ∷ []

abbrev you : Bytes
you = 121 ∷ 111 ∷ 117 ∷ []

-- the words of the line, in another order
abbrev pairs : List (Bytes × Bytes)
pairs = pair_of you ∷ pair_of hi ∷ []

pairs-Perm : Perm pairs (map pair_of (all_words ctype (text ∷ [])))
pairs-Perm = Perm.swap (pair_of hi) (pair_of you) []

collect-CountsWords_example :
    Yields
      (λ c _. CountsWords (all_words ctype (text ∷ [])) c.hash_table)
      machine_law.Fault
      (collect 3 log_file 0 empty_table 0 (machine (all_pairs pairs)))
unfolding machine_law mr_lib.Log.c_string
collect-CountsWords_example =
    collect-CountsWords machine_law ctype (text ∷ []) pairs 3 log_file 0 (machine (all_pairs pairs))
      ctype-IsPlain pairs-Perm (omega arith, omega arith, (omega arith, omega arith, tt))
      (omega arith) refl

abbrev pair : Pair
pair = record {
  token = record { address = 3; bytes = hi };
  value = record { address = 4; bytes = [] };
  value_size = 0;
}

store_pair-IsTable_example :
    Yields
      (λ new _. IsTable new)
      machine_law.Fault
      (store_pair log_file empty_table pair (machine []))
store_pair-IsTable_example =
    store_pair-IsTable machine_law log_file empty_table pair (machine []) empty_table-IsTable

abbrev file_line : FileLine
file_line = record {
  file_name = record { address = 1; bytes = [] };
  file_name_len = 0;
  line_number = 0;
  line = record { address = 2; bytes = hi ++ (44 ∷ hi) };
  line_len = 5;
}

abbrev text_at : ℕ → Bytes
text_at address = if address == 2 then hi ++ (44 ∷ hi) else []

abbrev lines : Queue
lines = record {
  buffer = line_bytes file_line ∷ [];
  address = 1;
  capacity = 1;
  element_size = 40;
  count = 1;
  closed = true;
}

abbrev pub alone : Threads (Counted Machine)
alone = record {
  mtx_lock = λ s. (true, s);
  cnd_wait_full = λ s. (true, s);
  cnd_wait_empty = λ s. (true, s);
  mtx_unlock = λ w. (true, w);
  cnd_signal_empty = λ w. (true, w);
  cnd_signal_full = λ w. (true, w);
  cnd_broadcast_empty = λ w. (true, w);
  mtx_init = λ w. (true, w);
  cnd_init_full = λ w. (true, w);
  cnd_init_empty = λ w. (true, w);
  mtx_destroy = λ w. w;
  cnd_destroy_full = λ w. w;
  cnd_destroy_empty = λ w. w;
}

pub alone-IsAlone : IsAlone alone
alone-IsAlone = record { lock = λ s. refl; unlock = λ w. refl; signal = λ w. refl }

abbrev pub mutex : Mutex Machine
mutex = record { lock = λ s. (true, s); unlock = λ w. (true, w) }

pub mutex-IsLone : IsLone mutex
mutex-IsLone = record { lock = λ s. refl; unlock = λ w. refl }

-- the worker on the line
abbrev mapped : Io (Counted Machine) (Unit {0})
mapped s = outside (
    map_all alone (word_counter ctype) (mapper_emit mutex log_file "Worker 0") text_at 2 1 log_file
      "Worker 0" (lines, s))

abbrev found_words : List Bytes
found_words =
    queued_words machine_law mutex mutex-IsLone alone text_at log_file "Worker 0" ctype lines

pub no_fault : ¬ machine_law.Fault
unfolding machine_law
no_fault f = f

found_words_test : found_words ≡ hi ∷ hi ∷ []
unfolding line_at line_bytes of_bytes size_bytes
found_words_test = refl

found_words-AreShort : AreShort found_words
found_words-AreShort = rw found_words_test (omega arith, (omega arith, tt))

found_words-few : length found_words < 3
found_words-few = rw found_words_test (omega arith)

-- the counter and the machine when the worker has ended
abbrev mapped_world : Counted Machine
mapped_world = (mapped (0, machine [])).1

mapped-ok : mapped (0, machine []) ≡ (ok tt, mapped_world)
mapped-ok =
    let (r, s', e, p) =
      Yields.result
        (map_all-Sends machine_law mutex mutex-IsLone alone text_at log_file "Worker 0" ctype 2 0
          lines (0, machine []) alone-IsAlone refl (omega arith) found_words-AreShort)
        no_fault in
    e ∙ ap (λ (o : Outcome (Unit {0}) × Counted Machine). (ok tt, o.1)) (sym e)

map_all-collect_example :
    Yields
      (λ c _. CountsWords found_words c.hash_table)
      machine_law.Fault
      (collect 3 log_file 0 empty_table 0 (machine mapped_world.1.output))
unfolding machine_law
map_all-collect_example =
    map_all-collect machine_law mutex mutex-IsLone alone text_at log_file "Worker 0" ctype 2 0 3
      lines (0, machine []) mapped_world 0 (machine mapped_world.1.output) alone-IsAlone
      ctype-IsPlain refl (omega arith) found_words-AreShort found_words-few mapped-ok refl

-- the reducer's node of the word
abbrev node : TokenNode
node = record {
  address = 8;
  token = record { address = 16; bytes = hi };
  array = 24;
  values = record { content = record { address = 32; bytes = [] }; size = 0 } ∷ [];
  count = 1;
  capacity = 8;
}

abbrev place : Place
place = record {
  bucket = hash_function hi;
  front = [];
  node = record node { values = []; count = 0 };
  back = [];
}

abbrev table : Table
table = write_back empty_table place node

empty-at : get_or empty_table (hash_function hi) [] ≡ []
empty-at = get_or-replicate {A = Chain} table_size (hash_function hi) []

place-Placed : Placed hi place
unfolding c_string values_in
place-Placed = record {
  bucket_of = refl;
  counted = refl;
  keeps = λ new same counted. (ap (λ (b : Buffer). hash_function b.bytes) same, counted, refl, tt);
}

table-IsTable : IsTable table
table-IsTable =
    write_back-IsTable hi empty_table place node empty_table-IsTable place-Placed refl refl

place-Located : Located hi empty_table place
unfolding c_string values_in
place-Located = record {
  bucket_of = refl;
  grows = λ v new g. rw empty-at (new_node-Grown hi v [] place.node new refl refl refl g);
}

one_or_none :
    (t : Bytes) (b : Bool)
    → length (if b then lookup empty_table t ++ ([] ∷ []) else lookup empty_table t)
      ≡ (if b then 1 else 0) + 0
one_or_none t true = rw (lookup-empty_table t) refl
one_or_none t false = rw (lookup-empty_table t) refl

lookup-table : (t : Bytes) → length (lookup table t) ≡ occurrences (c_string t) (hi ∷ [])
unfolding c_string
lookup-table t =
    let stored : Stores hi [] empty_table table =
      write_back-Stores hi [] empty_table place node refl place-Located
        (record { token = refl; values = refl }) in
    ap (λ (vs : List Bytes). length vs) (stored t)
    ∙ one_or_none t (same_text (c_string hi) (c_string t))

table-CountsWords : CountsWords (hi ∷ []) table
table-CountsWords = IsTable-CountsWords (hi ∷ []) table table-IsTable lookup-table

abbrev tokens : Queue
tokens = record {
  buffer = size_bytes 8 ∷ [];
  address = 1;
  capacity = 1;
  element_size = 8;
  count = 1;
  closed = true;
}

tokens-AreQueued : AreQueued (node ∷ []) (stack tokens) (node ∷ [])
unfolding node_at size_bytes of_bytes
tokens-AreQueued = queued refl none_queued

-- the worker on the node
abbrev reduced : Io (Counted Machine) (Unit {0})
reduced s = outside (
    reduce_all alone summing (reducer_emit mutex log_file "Worker 0") 2 1 log_file "Worker 0"
      (node ∷ []) (tokens, s))

abbrev reduced_world : Counted Machine
reduced_world = (reduced (0, machine [])).1

reduced-ok : reduced (0, machine []) ≡ (ok tt, reduced_world)
reduced-ok =
    let (r, s', e, p) =
      Yields.result
        (reduce_all-Sends machine_law no_fault mutex mutex-IsLone alone log_file "Worker 0" 2 0
          (node ∷ []) (node ∷ []) tokens (0, machine []) alone-IsAlone refl tokens-AreQueued
          (omega arith))
        no_fault in
    e ∙ ap (λ (o : Outcome (Unit {0}) × Counted Machine). (ok tt, o.1)) (sym e)

node-stands : get_or table (hash_function hi) [] ≡ node ∷ []
node-stands =
    get_or-set empty_table (hash_function hi) (node ∷ []) []
      (rw (length-replicate {A = Chain} table_size []) (hash_function-small hi))

abbrev path : Bytes
path = 111 ∷ []

reduce_all-output_example :
    Yields
      (λ _ w'.
        (w'.input ≡ []) × Holds machine_law log_file 0 path (output ((hi, size_bytes 1) ∷ [])) w')
      machine_law.Fault
      (receive_output_from_reducer 2 log_file 0 path (machine reduced_world.1.output))
unfolding machine_law c_string size_bytes same_text
reduce_all-output_example =
    reduce_all-output machine_law no_fault mutex mutex-IsLone alone log_file "Worker 0" 2 0 2
      (hi ∷ []) table (node ∷ []) (node ∷ []) tokens (0, machine []) reduced_world 0 path
      (machine reduced_world.1.output) table-CountsWords
      ((hash_function hi, ([], [], node-stands)), tt) alone-IsAlone refl tokens-AreQueued
      (omega arith) (omega arith) (omega arith, omega arith, tt) reduced-ok refl
