-- ===== src/WordCount/Pipeline.antt =====
-- The word count over both processes: a worker of the mapper on the lines, and the reducer at the other
-- end of the pipe.
use Prim.Native.String.{String}
use mathlib.Core.List.Perm
use mr_lib.Common.{
  ℕ, suc, ◌<◌, ◌≡◌, refl, ap, sym, ◌∙◌, true, List, [], ◌∷◌, ◌++◌, append-nil, append_assoc, map,
  Bytes, length, arith,
}
use mr_lib.Os.{Os}
use mr_lib.Os.Io.{Io, ok}
use mr_lib.Os.Lawful.{Lawful}
use mr_lib.Os.Yields.{Yields, at_result}
use mr_lib.Log.{LogFile}
use mr_lib.Protocol.Lines.{FileLine}
use mr_lib.Protocol.Pair.Laws.{pair_bytes}
use mr_lib.Queue.{Queue, Threads}
use mr_lib.Queue.Laws.{stack}
use mr_lib.Reducer.Workers.Draining.{IsAlone, outside}
use mr_lib.Reducer.Table.{empty_table}
use mr_lib.Reducer.Collect.{collect}
use mr_lib.Reducer.Collect.Laws.{all_pairs, AreSized}
use mr_lib.Mapper.{MapperFunction, map_line, map_all, line_at, free_line}
use mr_lib.Mapper.Draining.{map_each, map_all-each}
use mr_lib.Emit.{Counted, Mutex, mapper_emit}
use mr_lib.Emit.Alone.{
  IsLone, since, since-added, beside_count, beside_law, Sends, Sends-pure, Sends-bind, Sends-as,
  Sends-exit, Sends-kept, free-sent,
}
use mr_lib.WordCount.{Ctype, word_count_mapper}
use mr_lib.WordCount.Words.{words}
use mr_lib.WordCount.Totals.{
  IsPlain, AreTexts, IsText-c_string, all_words, all_words-AreTexts, pair_of,
}
use mr_lib.WordCount.Nodes.{CountsWords, collect-CountsWords}
use mr_lib.WordCount.Sending.{AreShort, text_of, word_count_mapper-Sends}

all_pairs-append :
    (us vs : List Bytes)
    → all_pairs (map pair_of (us ++ vs)) ≡ all_pairs (map pair_of us) ++ all_pairs (map pair_of vs)
all_pairs-append [] vs = refl
all_pairs-append (u ∷ us) vs =
    ap (λ (bs : Bytes). pair_bytes (pair_of u).0 [] ++ bs) (all_pairs-append us vs)
    ∙ sym (
        append_assoc (pair_bytes (pair_of u).0 []) (all_pairs (map pair_of us))
          (all_pairs (map pair_of vs)))

length-pairs : (ws : List Bytes) → length (map pair_of ws) ≡ length ws
length-pairs [] = refl
length-pairs (w ∷ ws) = omega (arith, length-pairs ws)

pub AreShort-split : (us vs : List Bytes) → AreShort (us ++ vs) → AreShort us × AreShort vs
AreShort-split [] vs h = (tt, h)
AreShort-split (u ∷ us) vs h = let (a, b) = AreShort-split us vs h.1 in ((h.0, a), b)

AreSized-words : (ws : List Bytes) → AreTexts ws → AreShort ws → AreSized (map pair_of ws)
AreSized-words [] h k = tt
AreSized-words (word ∷ ws) h k =
    (rw (IsText-c_string word h.0) k.0, omega arith, AreSized-words ws h.1 k.1)

abbrev pub word_counter : {W : Type 0} ⦃os : Os W⦄ → Ctype → MapperFunction W
word_counter ctype line emit = word_count_mapper ctype emit line

module _ {W : Type 0} ⦃os : Os W⦄ (law : Lawful os) (mutex : Mutex W) (lone : IsLone mutex)
    (threads : Threads (Counted W)) (text_at : ℕ → Bytes) (log_file : LogFile) (tname : String)
    (ctype : Ctype) where
  open law use {Fault, pending, sent}

  abbrev emit_pair : (token value : Bytes) → Io (Counted W) (Unit {0})
  emit_pair = mapper_emit mutex log_file tname

  map_line-Sends :
      (line : FileLine)
      → AreShort (words ctype (text_of line))
      → Sends
          (beside_law law)
          (all_pairs (map pair_of (words ctype (text_of line))))
          (map_line threads (word_counter ctype) emit_pair text_at log_file tname line)
  unfolding map_line free_line
  map_line-Sends line short = Sends-as (beside_law law) (append-nil _) (
      Sends-bind (beside_law law)
        (Sends-exit (beside_law law) _
          (word_count_mapper-Sends law mutex lone log_file tname ctype line short))
        λ _. Sends-kept (beside_law law) (free_line line) λ s.
          free-sent (beside_law law) line.file_name.address _
          ∙ free-sent (beside_law law) line.line.address s)

  map_each-Sends :
      (lines : List FileLine)
      → AreShort (all_words ctype (map text_of lines))
      → Sends
          (beside_law law)
          (all_pairs (map pair_of (all_words ctype (map text_of lines))))
          (map_each threads (word_counter ctype) emit_pair text_at log_file tname lines)
  map_each-Sends [] short = Sends-pure (beside_law law) tt
  map_each-Sends (line ∷ lines) short =
      let (first, rest) =
        AreShort-split (words ctype (text_of line)) (all_words ctype (map text_of lines)) short in
      Sends-as (beside_law law)
        (sym (all_pairs-append (words ctype (text_of line)) (all_words ctype (map text_of lines))))
        (Sends-bind (beside_law law) (map_line-Sends line first) λ _. map_each-Sends lines rest)

  -- the lines that the queue holds, the newest first, and their words
  abbrev pub queued : Queue → List FileLine
  queued q = map (line_at text_at) (stack q)

  abbrev pub queued_words : Queue → List Bytes
  queued_words q = all_words ctype (map text_of (queued q))

  -- On a closed queue, when no other worker runs and the fuel exceeds the number of lines, the loop of
  -- a worker of the word count sends the encodings of the pairs of a word and nothing, for each word
  -- of the lines in the queue, the newest line first, and nothing else; or a call fails. A size_t
  -- counts each word with its terminator.
  pub map_all-Sends :
      (fuel pop_fuel : ℕ) (q : Queue) (s : Counted W)
      → IsAlone threads
      → q.closed ≡ true
      → q.count < fuel
      → AreShort (queued_words q)
      → Yields
          (λ _ s'. sent 1 s'.1 ≡ sent 1 s.1 ++ all_pairs (map pair_of (queued_words q)))
          Fault
          (outside (
            map_all threads
              (word_counter ctype)
              emit_pair
              text_at
              fuel
              (suc pop_fuel)
              log_file
              tname
              (q, s)))
  map_all-Sends fuel pop_fuel q s alone shut enough short =
      rw
        (map_all-each threads (word_counter ctype) emit_pair text_at log_file tname fuel pop_fuel q
          s alone shut enough)
        ((map_each-Sends (queued q) short).at s)

  -- Where a worker of the word count, alone on a closed queue of lines, has returned, and the
  -- reducer can read what the pipe has been sent in the meantime, the reducer ends with a table in
  -- which every node stands in the chain of its hash, no two of a chain have the same text, each word
  -- of the lines has a node, and the `count` of a node is how often its text is among the words;
  -- unless a call fails. The fuels exceed the number of lines and of words, a size_t counts each word
  -- with its terminator, and no letter or digit is a terminator in lower case.
  pub map_all-collect :
      (fuel pop_fuel collect_fuel : ℕ) (q : Queue) (s s' : Counted W) (fd : ℕ) (w : W)
      → IsAlone threads
      → IsPlain ctype
      → q.closed ≡ true
      → q.count < fuel
      → AreShort (queued_words q)
      → length (queued_words q) < collect_fuel
      → outside (
          map_all threads
            (word_counter ctype)
            emit_pair
            text_at
            fuel
            (suc pop_fuel)
            log_file
            tname
            (q, s))
        ≡ (ok tt, s')
      → pending fd w ≡ since (sent 1 s.1) (sent 1 s'.1)
      → Yields
          (λ c _. CountsWords (queued_words q) c.hash_table)
          Fault
          (collect collect_fuel log_file fd empty_table 0 w)
  map_all-collect fuel pop_fuel collect_fuel q s s' fd w alone plain shut enough short room mapped
        piped =
      let whole : sent 1 s'.1 ≡ sent 1 s.1 ++ all_pairs (map pair_of (queued_words q)) =
        at_result (map_all-Sends fuel pop_fuel q s alone shut enough short) mapped in
      let texts = all_words-AreTexts ctype plain (map text_of (queued q)) in
      collect-CountsWords law ctype (map text_of (queued q)) (map pair_of (queued_words q))
        collect_fuel log_file fd w plain Perm.rfl (AreSized-words (queued_words q) texts short)
        (omega (arith, length-pairs (queued_words q), room))
        (piped ∙ since-added (sent 1 s.1) (all_pairs (map pair_of (queued_words q))) _ whole)
