-- ===== src/Mapper/Draining.antt =====
-- A worker of the mapper on a closed queue, when no other thread runs.
use Prim.Native.String.{String}
use mr_lib.Common.{
  ℕ, zero, suc, ◌<◌, ◌≡◌, refl, ap, sym, ◌∙◌, true, List, [], ◌∷◌, map, Bytes, length, arith,
}
use mr_lib.Os.{Arg, Os}
use mr_lib.Os.Io.{
  Io, Outcome, ok, fail, halt, after, recover, Handler, ◌then_do◌, syscall_exit, free, pure, ◌>>=◌,
  ◌>>◌,
}
use mr_lib.Log.{LogFile, mr_log_error}
use mr_lib.Queue.{Queue, Threads, popped, top}
use mr_lib.Queue.Laws.{stack, popped-stack, length-elements}
use mr_lib.Protocol.Lines.{FileLine}
use mr_lib.Reducer.Workers.{pop_or_stop}
use mr_lib.Reducer.Workers.Draining.{IsAlone, pop-some, pop-none, outside, outside-after}
use mr_lib.Mapper.{MapperFunction, map_line, map_all, line_at, free_line}
use mr_lib.Reducer.Table.Freeing.{freed}

module _ {W : Type 0} ⦃os : Os W⦄ (threads : Threads W) (mapper : MapperFunction W)
    (emit : (token value : Bytes) → Io W (Unit {0})) (text_at : ℕ → Bytes) (log_file : LogFile)
    (thread_name : String) where
  -- the user's function on some lines, one after the other, until one fails
  abbrev pub map_each : List FileLine → Io W (Unit {0})
  map_each [] = pure tt
  map_each (line ∷ lines) = do
    map_line threads mapper emit text_at log_file thread_name line
    map_each lines

  drain :
      (fuel pop_fuel : ℕ) (q : Queue) (w : W) (xs : List Bytes)
      → IsAlone threads
      → q.closed ≡ true
      → stack q ≡ xs
      → length xs < fuel
      → outside
          (map_all threads mapper emit text_at fuel (suc pop_fuel) log_file thread_name (q, w))
        ≡ map_each (map (line_at text_at) xs) w
  unfolding map_all pop_or_stop ◌>>=◌ pure
  drain zero pop_fuel q w xs alone shut e h = absurd (omega (arith, h))
  drain (suc fuel) pop_fuel q w [] alone shut e h =
      let many = length-elements q.count q.element_size q.buffer in
      let over : q.count ≡ 0 = sym many ∙ ap (λ (l : List Bytes). length l) e in
      rw (pop-none threads pop_fuel q w alone over shut) refl
  drain (suc fuel) pop_fuel q w (x ∷ xs) alone shut e h =
      let many = length-elements q.count q.element_size q.buffer in
      let count : q.count ≡ suc (length xs) = sym many ∙ ap (λ (l : List Bytes). length l) e in
      let some_left : 0 < q.count = omega (arith, count) in
      let both : top q ∷ stack (popped q) ≡ x ∷ xs = sym (popped-stack q some_left) ∙ e in
      let first : top q ≡ x = cc in
      let rest : stack (popped q) ≡ xs = cc in
      rw (pop-some threads pop_fuel q w alone some_left) (
        rw first (
          outside-after _ (popped q) _ (map_each (map (line_at text_at) xs))
            λ w'. drain fuel pop_fuel (popped q) w' xs alone shut rest (omega (arith, h))))

  -- the loop on a closed queue is one turn for each line in it
  pub map_all-each :
      (fuel pop_fuel : ℕ) (q : Queue) (w : W)
      → IsAlone threads
      → q.closed ≡ true
      → q.count < fuel
      → outside
          (map_all threads mapper emit text_at fuel (suc pop_fuel) log_file thread_name (q, w))
        ≡ map_each (map (line_at text_at) (stack q)) w
  map_all-each fuel pop_fuel q w alone shut h =
      drain fuel pop_fuel q w (stack q) alone shut refl
        (omega (arith, length-elements q.count q.element_size q.buffer, h))

  -- the world behind the two calls of `free` for a line
  abbrev pub freed_line : FileLine → Handler W
  freed_line line w = freed line.file_name.address (freed line.line.address w)

  -- A line is freed however the user's function ends but by stopping the program; a failure is logged,
  -- and it ends the worker.
  abbrev pub done_with : FileLine → Outcome (Unit {0}) × W → Outcome (Unit {0}) × W
  done_with line (ok a, w) = (ok tt, freed_line line w)
  done_with line (fail, w) = (
    fail,
    freed_line line (
        mr_log_error log_file "Mapper" thread_name
          "User mapper function failed for file %s, line %lu"
          (Arg.bytes line.file_name.bytes ∷ Arg.num line.line_number ∷ []) w),
  )
  done_with line (halt s, w) = (halt s, w)

  abbrev pub turns : List FileLine → Io W (Unit {0})
  turns [] w = (ok tt, w)
  turns (line ∷ lines) w = after (done_with line (mapper line emit w)) (λ _. turns lines)

  recover-done :
      (line : FileLine) (o : Outcome (Unit {0}) × W)
      → after
          (recover o (
            mr_log_error log_file "Mapper" thread_name
              "User mapper function failed for file %s, line %lu"
              (Arg.bytes line.file_name.bytes ∷ Arg.num line.line_number ∷ [])
            then_do free_line line))
          (λ _ w. (ok tt, free_line line w))
        ≡ done_with line o
  unfolding free_line free
  recover-done line (ok a, w) = refl
  recover-done line (fail, w) = refl
  recover-done line (halt s, w) = refl

  map_line-done :
      (line : FileLine) (w : W)
      → map_line threads mapper emit text_at log_file thread_name line w
        ≡ done_with line (mapper line emit w)
  unfolding map_line syscall_exit ◌>>=◌ pure
  map_line-done line w = recover-done line _

  map_each-turns : (lines : List FileLine) (w : W) → map_each lines w ≡ turns lines w
  unfolding ◌>>=◌ pure
  map_each-turns [] w = refl
  map_each-turns (line ∷ lines) w =
      ap (λ (o : Outcome (Unit {0}) × W). after o (λ _. map_each lines)) (map_line-done line w)
      ∙ ap (λ (k : Io W (Unit {0})). after (done_with line (mapper line emit w)) (λ _. k))
          (λ i v. map_each-turns lines v i)

  -- On a closed queue, when no other thread runs and the fuel exceeds the number of elements, the loop of
  -- a worker calls the user's function on each line in the queue, the newest first, and then frees the
  -- text and the name of the line, before it takes the next; where the function fails, that is logged,
  -- the line is freed all the same, and the worker ends with the failure.
  pub map_all-turns :
      (fuel pop_fuel : ℕ) (q : Queue) (w : W)
      → IsAlone threads
      → q.closed ≡ true
      → q.count < fuel
      → outside
          (map_all threads mapper emit text_at fuel (suc pop_fuel) log_file thread_name (q, w))
        ≡ turns (map (line_at text_at) (stack q)) w
  map_all-turns fuel pop_fuel q w alone shut h =
      map_all-each fuel pop_fuel q w alone shut h ∙ map_each-turns _ w
