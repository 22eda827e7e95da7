-- ===== src/WordCount/Sending.antt =====
-- What a mapper of the word count sends to the reducer.
use Prim.Native.String.{String}
use mr_lib.Common.{
  ◌+◌, ◌%◌, ◌<◌, List, [], ◌∷◌, ◌++◌, map, append-nil, Bytes, length, take, size_limit, arith,
}
use mr_lib.Os.{Os}
use mr_lib.Os.Io.{free}
use mr_lib.Os.Lawful.{Lawful}
use mr_lib.Os.Quiet.{Quiet-malloc}
use mr_lib.Log.{LogFile}
use mr_lib.Protocol.Lines.{FileLine}
use mr_lib.Protocol.Pair.Laws.{pair_bytes}
use mr_lib.Reducer.Collect.Laws.{all_pairs}
use mr_lib.Emit.{Mutex, mapper_emit}
use mr_lib.Emit.Alone.{
  IsLone, beside_count, beside_law, Sends, Sends-pure, Sends-Quiet, Sends-as, Sends-bind,
  Sends-handle, Sends-kept, free-sent, mapper_emit-Sends,
}
use mr_lib.WordCount.{Ctype, word_count_mapper}
use mr_lib.WordCount.Words.{words, emit_word, emit_all, word_count_mapper-words}
use mr_lib.WordCount.Totals.{pair_of}

-- words that a `size_t` counts, with their terminators
abbrev pub AreShort : List Bytes → Type 0
AreShort [] = Unit
AreShort (word ∷ rest) = (length word + 1 < size_limit) × AreShort rest

-- what a line holds
abbrev pub text_of : FileLine → Bytes
text_of line = take line.line_len line.line.bytes

module _ {W : Type 0} ⦃os : Os W⦄ (law : Lawful os) (mutex : Mutex W) (lone : IsLone mutex)
    (log_file : LogFile) (tname : String) where
  emit_word-Sends :
      (ctype : Ctype) (word : Bytes)
      → length word + 1 < size_limit
      → Sends
          (beside_law law)
          (pair_bytes (pair_of word).0 [])
          (emit_word ctype (mapper_emit mutex log_file tname) word)
  unfolding emit_word
  emit_word-Sends ctype word short =
      let positive : 0 < (length word + 1) % size_limit = omega (arith, short) in
      Sends-as (beside_law law) (append-nil (pair_bytes (pair_of word).0 [])) (
        Sends-bind (beside_law law)
          (Sends-Quiet (beside_law law) (Quiet-malloc (beside_law law) _ positive))
          λ address.
            Sends-bind (beside_law law)
              (Sends-handle (beside_law law) _
                (mapper_emit-Sends law mutex lone log_file tname (word ++ (0 ∷ [])) []))
              λ _. Sends-kept (beside_law law) (free address) (free-sent (beside_law law) address))

  emit_all-Sends :
      (ctype : Ctype) (ws : List Bytes)
      → AreShort ws
      → Sends
          (beside_law law)
          (all_pairs (map pair_of ws))
          (emit_all ctype (mapper_emit mutex log_file tname) ws)
  emit_all-Sends ctype [] short = Sends-pure (beside_law law) tt
  emit_all-Sends ctype (word ∷ ws) short =
      Sends-bind (beside_law law) (emit_word-Sends ctype word short.0)
        λ _. emit_all-Sends ctype ws short.1

  pub word_count_mapper-Sends :
      (ctype : Ctype) (line : FileLine)
      → AreShort (words ctype (text_of line))
      → Sends
          (beside_law law)
          (all_pairs (map pair_of (words ctype (text_of line))))
          (word_count_mapper ctype (mapper_emit mutex log_file tname) line)
  word_count_mapper-Sends ctype line short =
      rw (word_count_mapper-words ctype (mapper_emit mutex log_file tname) line)
        (emit_all-Sends ctype (words ctype (text_of line)) short)
