-- ===== src/WordCount/Reducing.antt =====
-- A worker of the reducer of the word count, and the main process at the other end of the pipe.
use Prim.Native.String.{String}
use mr_lib.Common.{
  ℕ, suc, ◌<◌, ◌≡◌, ◌∙◌, refl, sym, true, List, [], ◌∷◌, ◌++◌, append-nil, map, Bytes, length,
  size_bytes,
}
use mr_lib.Os.{Os}
use mr_lib.Os.Io.{Io, Outcome, ok, Handler}
use mr_lib.Os.Lawful.{Lawful}
use mr_lib.Os.Yields.{Yields, returns, fails, at_result}
use mr_lib.Log.{LogFile, c_string}
use mr_lib.Protocol.Results.{receive_output_from_reducer}
use mr_lib.Protocol.Results.Laws.{result_bytes}
use mr_lib.Protocol.Results.Output.{
  wire, output, IsSized, Holds, receive_output_from_reducer-output,
}
use mr_lib.Queue.{Queue, Threads}
use mr_lib.Queue.Laws.{stack}
use mr_lib.Reducer.Table.{Value, TokenNode, Chain, Table, free_values}
use mr_lib.Reducer.Workers.{
  ReducerFunction, reduce_node, reduce_all, release_node, go_on, despite_failure,
}
use mr_lib.Reducer.Workers.Draining.{IsAlone, AreQueued, outside, reduce_each, reduce_all-each}
use mr_lib.Reducer.Collect.Nodes.{StandsAt}
use mr_lib.Emit.{Counted, Mutex, reducer_emit}
use mr_lib.Emit.Alone.{
  IsLone, since, since-added, beside_count, beside_law, Sends, Sends-pure, Sends-bind, Sends-as,
  Sends-kept, free-sent, reducer_emit-Sends,
}
use mr_lib.WordCount.{word_count_reducer}
use mr_lib.WordCount.Results.Printing.{result_of}
use mr_lib.WordCount.Totals.{occurrences}
use mr_lib.WordCount.Nodes.{CountsWords}

abbrev pub summing : {W : Type 0} → ReducerFunction W
summing token values count emit = word_count_reducer emit token count

-- a token and its number, as a node has them
abbrev pub count_of : TokenNode → Bytes × ℕ
count_of node = (c_string node.token.bytes, node.count)

abbrev pub text_of_node : TokenNode → Bytes
text_of_node node = c_string node.token.bytes

-- a text, with how often it is among the words
abbrev pub with_number : List Bytes → Bytes → Bytes × ℕ
with_number words t = (t, occurrences t words)

-- each of the nodes stands somewhere in the table
abbrev pub AreIn : Table → Chain → Type 0
AreIn table [] = Unit
AreIn table (node ∷ nodes) = ((i : ℕ) × StandsAt table i node) × AreIn table nodes

counts_of :
    (words : List Bytes) (table : Table) (nodes : Chain)
    → CountsWords words table
    → AreIn table nodes
    → map count_of nodes ≡ map (with_number words) (map text_of_node nodes)
counts_of words table [] counting is = refl
counts_of words table (node ∷ nodes) counting ((i, stands), rest) =
    rw (counting.counts i node stands, counts_of words table nodes counting rest) refl

module _ {W : Type 0} ⦃os : Os W⦄ (law : Lawful os) where
  open law use {Fault, sent}

  -- where nothing fails
  Sends-despite :
      {bs : Bytes} {m : Io W (Unit {0})} (h : Handler W)
      → ¬ Fault
      → Sends law bs m
      → Sends law bs (despite_failure m h)
  unfolding despite_failure
  Sends-despite {bs} {m} h sound sends = record { at = λ w. succeeded w (sends.at w) }
    where
      succeeded :
          (w : W) {o : Outcome (Unit {0}) × W}
          → Yields (λ _ w'. sent 1 w' ≡ sent 1 w ++ bs) Fault o
          → Yields (λ _ w'. sent 1 w' ≡ sent 1 w ++ bs) Fault (go_on o h)
      succeeded w (returns p) = returns p
      succeeded w (fails e) = absurd (sound e)

  free_values-sent : (vs : List Value) (w : W) → sent 1 (free_values vs w) ≡ sent 1 w
  unfolding free_values
  free_values-sent [] w = refl
  free_values-sent (v ∷ vs) w = free_values-sent vs _ ∙ free-sent law v.content.address w

  release_node-sent : (node : TokenNode) (w : W) → sent 1 (release_node node w) ≡ sent 1 w
  unfolding release_node
  release_node-sent node w =
      free-sent law node.address _
      ∙ free-sent law node.array _
      ∙ free_values-sent node.values _
      ∙ free-sent law node.token.address w

module _ {W : Type 0} ⦃os : Os W⦄ (law : Lawful os) (sound : ¬ law.Fault) (mutex : Mutex W)
    (lone : IsLone mutex) (threads : Threads (Counted W)) (log_file : LogFile)
    (tname : String) where
  open law use {Fault, pending, sent}

  abbrev emit_result : (token result : Bytes) → Io (Counted W) (Unit {0})
  emit_result = reducer_emit mutex log_file tname

  reduce_node-Sends :
      (node : TokenNode)
      → Sends
          (beside_law law)
          (result_bytes (count_of node).0 (size_bytes node.count))
          (reduce_node threads summing emit_result log_file tname node)
  unfolding reduce_node word_count_reducer
  reduce_node-Sends node = Sends-as (beside_law law) (append-nil _) (
      Sends-bind (beside_law law)
        (Sends-despite (beside_law law) _ sound (
          reducer_emit-Sends law mutex lone log_file tname node.token.bytes
            (size_bytes node.count)))
        λ _.
          Sends-kept (beside_law law) (release_node node) (release_node-sent (beside_law law) node))

  reduce_each-Sends :
      (nodes : Chain)
      → Sends
          (beside_law law)
          (wire (map result_of (map count_of nodes)))
          (reduce_each threads summing emit_result log_file tname nodes)
  unfolding wire
  reduce_each-Sends [] = Sends-pure (beside_law law) tt
  reduce_each-Sends (node ∷ nodes) =
      Sends-bind (beside_law law) (reduce_node-Sends node) λ _. reduce_each-Sends nodes

  -- On a closed queue of nodes, when no other worker runs and nothing fails, and the fuel exceeds their
  -- number, the loop of a worker of the word count sends the encodings of the results of a token and
  -- the `count` of its node, for each node in the queue, the newest first, and nothing else.
  pub reduce_all-Sends :
      (fuel pop_fuel : ℕ) (nodes picked : Chain) (q : Queue) (s : Counted W)
      → IsAlone threads
      → q.closed ≡ true
      → AreQueued nodes (stack q) picked
      → length picked < fuel
      → Yields
          (λ _ s'. sent 1 s'.1 ≡ sent 1 s.1 ++ wire (map result_of (map count_of picked)))
          Fault
          (outside (
            reduce_all threads summing emit_result fuel (suc pop_fuel) log_file tname nodes (q, s)))
  reduce_all-Sends fuel pop_fuel nodes picked q s alone shut held enough =
      rw
        (reduce_all-each threads summing emit_result log_file tname fuel pop_fuel nodes picked q s
          alone shut held enough)
        ((reduce_each-Sends picked).at s)

  -- Where a worker of the reducer of the word count, alone on a closed queue of nodes of a table that
  -- counts the words of some lines, has returned, and the main process can read what the pipe has
  -- been sent in the meantime, the output file is given exactly the records of the tokens of those
  -- nodes, each with how often it is among the words, the newest node of the queue first, and the pipe
  -- is read to its end. Nothing fails, the fuels exceed the number of nodes, and the lengths of the
  -- tokens fit a size_t.
  pub reduce_all-output :
      (fuel pop_fuel receive_fuel : ℕ) (words : List Bytes) (table : Table) (nodes picked : Chain)
      (q : Queue) (s s' : Counted W) (fd : ℕ) (path : Bytes) (w : W)
      → CountsWords words table
      → AreIn table picked
      → IsAlone threads
      → q.closed ≡ true
      → AreQueued nodes (stack q) picked
      → length picked < fuel
      → length (map result_of (map count_of picked)) < receive_fuel
      → IsSized (map result_of (map count_of picked))
      → outside
          (reduce_all threads summing emit_result fuel (suc pop_fuel) log_file tname nodes (q, s))
        ≡ (ok tt, s')
      → pending fd w ≡ since (sent 1 s.1) (sent 1 s'.1)
      → Yields
          (λ _ w'.
            (pending fd w' ≡ [])
            × Holds law log_file fd path
                (output (map result_of (map (with_number words) (map text_of_node picked))))
                w')
          Fault
          (receive_output_from_reducer receive_fuel log_file fd path w)
  reduce_all-output fuel pop_fuel receive_fuel words table nodes picked q s s' fd path w counting is
        alone shut held enough room sized reduced piped =
      let whole =
        at_result (reduce_all-Sends fuel pop_fuel nodes picked q s alone shut held enough)
          reduced in
      rw (sym (counts_of words table picked counting is)) (
        receive_output_from_reducer-output law log_file fd receive_fuel path
          (map result_of (map count_of picked)) w room sized
          (piped ∙ since-added (sent 1 s.1) (wire (map result_of (map count_of picked))) _ whole))
