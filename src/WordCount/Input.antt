-- ===== src/WordCount/Input.antt =====
-- The word count from the pipe of the main process to the table of the reducer.
use Prim.Native.String.{String}
use mr_lib.Common.{
  ℕ, suc, ◌+◌, ◌≤◌, ◌<◌, ◌≡◌, refl, ap, sym, ◌∙◌, true, false, List, [], ◌∷◌, ◌++◌, map, Bytes,
  length, length-append, arith,
}
use mr_lib.Os.{Os}
use mr_lib.Os.Io.{ok}
use mr_lib.Os.Lawful.{Lawful}
use mr_lib.Os.Yields
use mr_lib.Os.Yields.{Yields, at_result}
use mr_lib.Log.{LogFile, c_string}
use mr_lib.Protocol.Lines.{FileLine, main_receiver_init}
use mr_lib.Protocol.Lines.Laws.{Entry, IsLine, FilesOn, all_lines, between}
use mr_lib.Queue.{Queue, Threads}
use mr_lib.Queue.Laws.{IsQueue, stack, elements, take-full}
use mr_lib.Reducer.Processing.{Crew}
use mr_lib.Reducer.Table.{Table, empty_table}
use mr_lib.Reducer.Collect.{collect}
use mr_lib.Reducer.Workers.Draining.{IsAlone, outside}
use mr_lib.Mapper.{line_bytes, line_at, line_size, map_all}
use mr_lib.Mapper.Controller.{Received, push_lines}
use mr_lib.Mapper.Feeding.{IsOnly, AreLines, on_top, Fed, all_fed, broken, push_lines-Fed}
use mr_lib.Emit.{Counted, Mutex, mapper_emit}
use mr_lib.Emit.Alone.{IsLone, since, beside_count, beside_law}
use mr_lib.WordCount.{Ctype}
use mr_lib.WordCount.Words.{words}
use mr_lib.WordCount.Totals.{IsPlain, all_words, occurrences}
use mr_lib.WordCount.Nodes.{CountsWords}
use mr_lib.WordCount.Sending.{AreShort, text_of}
use mr_lib.WordCount.Pipeline.{AreShort-split, word_counter, map_all-collect}

abbrev pub texts : List Entry → List Bytes
texts entries = map (λ (e : Entry). e.text) entries

-- what a worker reads in the elements of these lines are their texts
abbrev pub AreRead : (ℕ → Bytes) → List FileLine → Type 0
AreRead text_at [] = Unit
AreRead text_at (l ∷ ls) =
    (text_of (line_at text_at (line_bytes l)) ≡ text_of l) × AreRead text_at ls

text_of_entry : (e : Entry) (l : FileLine) → IsLine e l → text_of l ≡ e.text
text_of_entry e l is = rw (is.line, is.line_len) (take-full e.text (length e.text) refl)

occurrences-append :
    (t : Bytes) (us vs : List Bytes)
    → occurrences t (us ++ vs) ≡ occurrences t us + occurrences t vs
occurrences-append t [] vs = omega arith
occurrences-append t (u ∷ us) vs = omega (arith, occurrences-append t us vs)

AreShort-append : (us vs : List Bytes) → AreShort us → AreShort vs → AreShort (us ++ vs)
AreShort-append [] vs h k = k
AreShort-append (u ∷ us) vs h k = (h.0, AreShort-append us vs h.1 k)

CountsWords-same :
    (us vs : List Bytes) (table : Table)
    → ((t : Bytes) → occurrences t us ≡ occurrences t vs)
    → CountsWords us table
    → CountsWords vs table
CountsWords-same us vs table same c = record {
  is_table = c.is_table;
  counts = λ i node stands. c.counts i node stands ∙ same (c_string node.token.bytes);
  has_node = λ t among. c.has_node t λ h. among (sym (same (c_string t)) ∙ h);
}

module _ (ctype : Ctype) (text_at : ℕ → Bytes) where
  -- the words of the elements on a queue
  abbrev pub words_on : List Bytes → List Bytes
  words_on xs = all_words ctype (map text_of (map (line_at text_at) xs))

  first_words :
      (e : Entry) (l : FileLine) (below : List Bytes)
      → IsLine e l
      → text_of (line_at text_at (line_bytes l)) ≡ text_of l
      → words_on (line_bytes l ∷ below) ≡ words ctype e.text ++ words_on below
  first_words e l below is read =
      ap (λ (text : Bytes). words ctype text ++ words_on below) (read ∙ text_of_entry e l is)

  -- what adds up over words is the same of the entries and of the elements
  sum-on_top :
      (f : List Bytes → ℕ)
      → f [] ≡ 0
      → ((us vs : List Bytes) → f (us ++ vs) ≡ f us + f vs)
      → (todo : List Entry) (lines : List FileLine) (below : List Bytes) → AreLines todo lines
      → AreRead text_at lines
      → f (words_on (on_top lines below)) ≡ f (all_words ctype (texts todo)) + f (words_on below)
  sum-on_top f none adds [] [] below are read = omega (arith, none)
  sum-on_top f none adds [] (l ∷ lines) below are read = absurd are
  sum-on_top f none adds (e ∷ todo) [] below are read = absurd are
  sum-on_top f none adds (e ∷ todo) (l ∷ lines) below are read =
      let later = sum-on_top f none adds todo lines (line_bytes l ∷ below) are.1 read.1 in
      let here = ap f (first_words e l below are.0 read.0) in
      omega (
        arith,
        later,
        here,
        adds (words ctype e.text) (words_on below),
        adds (words ctype e.text) (all_words ctype (texts todo)),
      )

  AreShort-on_top :
      (todo : List Entry) (lines : List FileLine) (below : List Bytes)
      → AreLines todo lines
      → AreRead text_at lines
      → AreShort (all_words ctype (texts todo))
      → AreShort (words_on below)
      → AreShort (words_on (on_top lines below))
  AreShort-on_top [] [] below are read h k = k
  AreShort-on_top [] (l ∷ lines) below are read h k = absurd are
  AreShort-on_top (e ∷ todo) [] below are read h k = absurd are
  AreShort-on_top (e ∷ todo) (l ∷ lines) below are read h k =
      let (first, rest) = AreShort-split (words ctype e.text) (all_words ctype (texts todo)) h in
      AreShort-on_top todo lines (line_bytes l ∷ below) are.1 read.1 rest (
        rw (first_words e l below are.0 read.0)
          (AreShort-append (words ctype e.text) (words_on below) first k))

-- behind `mr_queue_close`
abbrev pub closing : Queue → Queue
closing q = record q { closed = true }

module _ {W : Type 0} ⦃os : Os W⦄ (law : Lawful os) (mutex : Mutex W) (lone : IsLone mutex)
    (threads : Threads (Counted W)) (crew : Crew (Counted W)) (text_at : ℕ → Bytes)
    (log_file : LogFile) (tname : String) (ctype : Ctype) where
  open law use {Fault, pending, sent}

  -- what is known of the queue when all lines have been put on it
  fed_queue :
      (q : Queue) (n : ℕ) (todo : List Entry) (r : Received) (s : Queue × Counted W)
      → ¬ Fault
      → Fed (beside_law law) threads crew log_file q n todo r s
      → (lines : List FileLine) × AreLines todo lines
        × (s.0.count ≡ q.count + length todo)
        × (stack s.0 ≡ on_top lines (stack q))
  fed_queue q n todo r s sound (all_fed lines are fine counted many open_ held) =
      (lines, are, many, held)
  fed_queue q n todo r s sound (broken bad fault) = absurd (sound fault)

  -- the queue of the lines, as the worker finds it
  pub Fed-AreShort :
      (q q' : Queue) (todo : List Entry) (r : Received) (s : Counted W)
      → ¬ Fault
      → Fed (beside_law law) threads crew log_file q 0 todo r (q', s)
      → q.count ≡ 0
      → ((lines : List FileLine)
          → AreLines todo lines
          → stack q' ≡ on_top lines []
          → AreRead text_at lines)
      → AreShort (all_words ctype (texts todo))
      → (q'.count ≡ length todo) × AreShort (words_on ctype text_at (stack q'))
  Fed-AreShort q q' todo r s sound fed fresh read short =
      let (lines, are, many, held) = fed_queue q 0 todo r (q', s) sound fed in
      let none_below : stack q ≡ [] = ap (λ (k : ℕ). elements k q.element_size q.buffer) fresh in
      let on : stack q' ≡ on_top lines [] = held ∙ ap (on_top lines) none_below in
      (
        omega (arith, many, fresh),
        rw (ap (words_on ctype text_at) on)
            (AreShort-on_top ctype text_at todo lines [] are (read lines are on) short tt),
      )

  -- Where a mapper has been sent an encoding of some files, its queue is new and has room for all of
  -- their lines, its loop over the lines has put them there before a worker runs, and then the one worker has
  -- returned, and the reducer can read what that worker has sent, the reducer ends
  -- with a table in which each word of the files has a node, every node stands in the chain of its
  -- hash, no two of a chain have the same text, and the `count` of a node is how often its text is
  -- among the words of the files. Nothing fails, the fuels exceed the numbers of lines, files and words,
  -- the texts of the lines are still in their blocks, a size_t counts each word with its terminator,
  -- and no letter or digit is a terminator in lower case.
  pub files-CountsWords :
      (fuel receive_fuel push_fuel map_fuel pop_fuel collect_fuel : ℕ)
      (files : List (Bytes × List Bytes)) (q q' : Queue) (s s' s'' : Counted W) (r : Received)
      (fd : ℕ) (w : W)
      → ¬ Fault
      → IsOnly threads
      → IsAlone threads
      → IsPlain ctype
      → IsQueue q
      → q.closed ≡ false
      → q.element_size ≡ line_size
      → q.count ≡ 0
      → length (all_lines files) ≤ q.capacity
      → length (all_lines files) < fuel
      → length files < receive_fuel
      → length (all_lines files) < map_fuel
      → AreShort (all_words ctype (texts (all_lines files)))
      → length (all_words ctype (texts (all_lines files))) < collect_fuel
      → FilesOn files (pending 0 s.1)
      → push_lines threads crew log_file fuel receive_fuel
          (suc push_fuel)
          main_receiver_init
          0
          (q, s)
        ≡ (ok r, (q', s'))
      → ((lines : List FileLine)
          → AreLines (all_lines files) lines
          → stack q' ≡ on_top lines []
          → AreRead text_at lines)
      → outside (
          map_all threads
            (word_counter ctype)
            (mapper_emit mutex log_file tname)
            text_at
            map_fuel
            (suc pop_fuel)
            log_file
            tname
            (closing q', s'))
        ≡ (ok tt, s'')
      → pending fd w ≡ since (sent 1 s'.1) (sent 1 s''.1)
      → Yields
          (λ c _. CountsWords (all_words ctype (texts (all_lines files))) c.hash_table)
          Fault
          (collect collect_fuel log_file fd empty_table 0 w)
  files-CountsWords fuel receive_fuel push_fuel map_fuel pop_fuel collect_fuel files q q' s s' s'' r
        fd w sound only alone plain well open_ size fresh room enough rounds turns short few encoded
        pushed read mapped piped =
      let todo = all_lines files in
      let fed =
        at_result
          (push_lines-Fed (beside_law law) threads crew log_file fuel receive_fuel push_fuel
            (length files) 0 main_receiver_init todo q s only well open_ size
            (omega (arith, fresh, room)) enough rounds
            (between files (length files) todo refl encoded refl refl))
          pushed in
      let (lines, are, many, held) = fed_queue q 0 todo r (q', s') sound fed in
      let none_below : stack q ≡ [] = ap (λ (k : ℕ). elements k q.element_size q.buffer) fresh in
      let on : stack q' ≡ on_top lines [] = held ∙ ap (on_top lines) none_below in
      let words_there : words_on ctype text_at (stack q')
          ≡ words_on ctype text_at (on_top lines []) =
        ap (words_on ctype text_at) on in
      let seen = read lines are on in
      let same : (f : List Bytes → ℕ)
          → f [] ≡ 0
          → ((us vs : List Bytes) → f (us ++ vs) ≡ f us + f vs)
          → f (words_on ctype text_at (stack q')) ≡ f (all_words ctype (texts todo)) =
        λ f none adds.
          let sum = sum-on_top ctype text_at f none adds todo lines [] are seen in
          omega (arith, ap f words_there, sum, none) in
      let (count, short') = Fed-AreShort q q' todo r s' sound fed fresh read short in
      Yields.mono
        (map_all-collect law mutex lone threads text_at log_file tname ctype map_fuel pop_fuel
          collect_fuel (closing q') s' s'' fd w alone plain refl (omega (arith, count, turns))
          short' (omega (arith, same (λ us. length us) refl length-append, few)) mapped piped)
        λ c w' good.
          CountsWords-same (words_on ctype text_at (stack q')) (all_words ctype (texts todo))
            c.hash_table (λ t. same (occurrences t) refl (occurrences-append t)) good
