-- ===== src/Tests/Files.antt =====
-- The word count of a file of two lines, from the pipe of the main process.
use mathlib.Core.Path.{subst}
use mr_lib.Common.{
  ℕ, ◌≡◌, ◌<◌, refl, ap, sym, ◌∙◌, true, false, some, List, [], ◌∷◌, ◌++◌, Bytes, length, arith,
  replicate, size_limit,
}
use mr_lib.Os.Io.{Io, Outcome, ok}
use mr_lib.Os.Yields
use mr_lib.Os.Yields.{Yields}
use mr_lib.Protocol.Lines.{FileLine, main_receiver_init}
use mr_lib.Protocol.Lines.Laws.{
  Entry, IsLine, name_header, line_header, eof_header, FilesOn, all_lines, numbered, end, line, nil,
  file, between,
}
use mr_lib.Queue.{Queue, Shared}
use mr_lib.Queue.Laws.{IsQueue, stack}
use mr_lib.Reducer.Processing.{Crew}
use mr_lib.Reducer.Table.{empty_table}
use mr_lib.Reducer.Collect.{collect}
use mr_lib.Reducer.Workers.Draining.{outside}
use mr_lib.Mapper.{map_all, line_at, line_bytes}
use mr_lib.Mapper.Controller.{Received, push_lines}
use mr_lib.Mapper.Elements.{line_len-line_at}
use mr_lib.Mapper.Feeding.{IsOnly, AreLines, on_top, Fed, push_lines-Fed}
use mr_lib.Emit.{Counted, mapper_emit}
use mr_lib.Emit.Alone.{beside_count, beside_law, since}
use mr_lib.WordCount.Totals.{all_words}
use mr_lib.WordCount.Nodes.{CountsWords}
use mr_lib.WordCount.Sending.{AreShort, text_of}
use mr_lib.WordCount.Pipeline.{word_counter, map_all-Sends}
use mr_lib.WordCount.Input.{AreRead, texts, closing, words_on, Fed-AreShort, files-CountsWords}
use mr_lib.Tests.Machine.{Machine, machine_os, machine_law}
use mr_lib.Tests.Reduction.{log_file, ctype}
use mr_lib.Tests.Words.{
  alone, alone-IsAlone, mutex, mutex-IsLone, no_fault, machine, hi, ctype-IsPlain,
}

abbrev files : List (Bytes × List Bytes)
files = (b'f' ∷ [], hi ∷ hi ∷ []) ∷ []

abbrev padding : Bytes
padding = replicate 7 9

abbrev sent_files : Bytes
sent_files =
    name_header (b'f' ∷ [])
    ++ ((b'f' ∷ [])
        ++ ((line_header hi padding
              ++ (hi ++ (line_header hi padding ++ (hi ++ eof_header padding))))
            ++ []))

files-on : FilesOn files sent_files
files-on =
    file (b'f' ∷ []) (omega arith)
      (line padding hi refl (omega arith) (line padding hi refl (omega arith) (end padding refl)))
      nil

abbrev crew : Crew (Counted Machine)
crew = record {
  create = λ i s. (true, s);
  join = λ i s. (some 0, s);
  mutex_init = λ w. (true, w);
  mutex_destroy = λ w. w;
}

abbrev new_queue : Queue
new_queue = record {
  buffer = replicate 2 (replicate 40 7);
  address = 1;
  capacity = 2;
  element_size = 40;
  count = 0;
  closed = false;
}

alone-IsOnly : IsOnly alone
alone-IsOnly = record { lock = λ s. refl; unlock = λ w. refl; signal = λ w. refl }

new_queue-IsQueue : IsQueue new_queue
new_queue-IsQueue = record { room = refl; bound = omega arith }

abbrev pushing : Io (Shared (Counted Machine)) Received
pushing = push_lines alone crew log_file 3 2 1 main_receiver_init 0

entries-few : length (all_lines files) ≡ 2
unfolding all_lines numbered
entries-few = refl

push_lines-Fed_example :
    Yields
      (Fed (beside_law machine_law) alone crew log_file new_queue 0 (all_lines files))
      ⊥
      (pushing (new_queue, (0, machine sent_files)))
unfolding machine_law
push_lines-Fed_example =
    push_lines-Fed (beside_law machine_law) alone crew log_file 3 2 0 1 0 main_receiver_init
      (all_lines files) new_queue (0, machine sent_files) alone-IsOnly new_queue-IsQueue refl refl
      (rw entries-few (omega arith)) (rw entries-few (omega arith)) (omega arith)
      (between files 1 (all_lines files) refl files-on refl refl)

-- how the loop of the mapper ends
abbrev after_pushing : Shared (Counted Machine)
after_pushing = (pushing (new_queue, (0, machine sent_files))).1

abbrev ended :
    (r : Received) × (s : Shared (Counted Machine)) × (pushing (new_queue, (0, machine sent_files))
      ≡ (ok r, s))
    × Fed (beside_law machine_law) alone crew log_file new_queue 0 (all_lines files) r s
unfolding machine_law
ended =
    Yields.result
      (push_lines-Fed (beside_law machine_law) alone crew log_file 3 2 0 1 0 main_receiver_init
        (all_lines files) new_queue (0, machine sent_files) alone-IsOnly new_queue-IsQueue refl refl
        (rw entries-few (omega arith)) (rw entries-few (omega arith)) (omega arith)
        (between files 1 (all_lines files) refl files-on refl refl))
      (λ never. never)

pushed-ok : pushing (new_queue, (0, machine sent_files)) ≡ (ok ended.0, after_pushing)
pushed-ok =
    ended.2
    ∙ ap (λ (o : Outcome Received × Shared (Counted Machine)). (ok ended.0, o.1)) (sym ended.2)

abbrev text_at : ℕ → Bytes
text_at _ = hi

read_line :
    (e : Entry) (l : FileLine)
    → e.text ≡ hi
    → IsLine e l
    → text_of (line_at text_at (line_bytes l)) ≡ text_of l
unfolding line_at
read_line e l text is =
    let small : l.line_len < size_limit = rw (is.line_len, text) (omega arith) in
    rw (line_len-line_at text_at l small, is.line, text) refl

read_lines :
    (lines : List FileLine)
    → AreLines (all_lines files) lines
    → stack after_pushing.0 ≡ on_top lines []
    → AreRead text_at lines
unfolding all_lines numbered
read_lines [] are on = absurd are
read_lines (l ∷ []) are on = absurd are.1
read_lines (l ∷ k ∷ []) are on = (read_line _ l refl are.0, (read_line _ k refl are.1.0, tt))
read_lines (l ∷ k ∷ j ∷ lines) are on = absurd are.1.1

words_test : all_words ctype (texts (all_lines files)) ≡ hi ∷ hi ∷ []
unfolding all_lines numbered
words_test = refl

abbrev mapping : Io (Counted Machine) (Unit {0})
mapping s = outside (
    map_all alone (word_counter ctype) (mapper_emit mutex log_file "Worker 0") text_at 3 1 log_file
      "Worker 0" (closing after_pushing.0, s))

ended-fed :
    Fed
      (beside_law machine_law)
      alone
      crew
      log_file
      new_queue
      0
      (all_lines files)
      ended.0
      after_pushing
ended-fed =
    subst
      (λ (s : Shared (Counted Machine)).
        Fed (beside_law machine_law) alone crew log_file new_queue 0 (all_lines files) ended.0 s)
      (ap (λ (o : Outcome Received × Shared (Counted Machine)). o.1) (sym ended.2)) ended.3

lines-ready :
    (after_pushing.0.count ≡ length (all_lines files))
    × AreShort (words_on ctype text_at (stack after_pushing.0))
lines-ready =
    Fed-AreShort machine_law mutex mutex-IsLone alone crew text_at log_file "Worker 0" ctype
      new_queue after_pushing.0 (all_lines files) ended.0 after_pushing.1 no_fault ended-fed refl
      read_lines (rw words_test (omega arith, (omega arith, tt)))

abbrev mapped_world : Counted Machine
mapped_world = (mapping after_pushing.1).1

mapped-ok : mapping after_pushing.1 ≡ (ok tt, mapped_world)
mapped-ok =
    let (r, s', e, p) =
      Yields.result
        (map_all-Sends machine_law mutex mutex-IsLone alone text_at log_file "Worker 0" ctype 3 0
          (closing after_pushing.0) after_pushing.1 alone-IsAlone refl
          (omega (arith, lines-ready.0, entries-few)) lines-ready.1)
        no_fault in
    e ∙ ap (λ (o : Outcome (Unit {0}) × Counted Machine). (ok tt, o.1)) (sym e)

-- what the worker has put on the pipe
abbrev piped : Bytes
piped = since after_pushing.1.1.output mapped_world.1.output

files-CountsWords_example :
    Yields
      (λ c _. CountsWords (all_words ctype (texts (all_lines files))) c.hash_table)
      machine_law.Fault
      (collect 3 log_file 0 empty_table 0 (machine piped))
unfolding machine_law
files-CountsWords_example =
    files-CountsWords machine_law mutex mutex-IsLone alone crew text_at log_file "Worker 0" ctype 3
      2 0 3 0 3 files new_queue after_pushing.0 (0, machine sent_files) after_pushing.1 mapped_world
      ended.0 0 (machine piped) no_fault alone-IsOnly alone-IsAlone ctype-IsPlain new_queue-IsQueue
      refl refl refl (rw entries-few (omega arith)) (rw entries-few (omega arith)) (omega arith)
      (rw entries-few (omega arith)) (rw words_test (omega arith, (omega arith, tt)))
      (rw words_test (omega arith)) files-on pushed-ok read_lines mapped-ok refl
