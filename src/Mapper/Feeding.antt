-- ===== src/Mapper/Feeding.antt =====
-- The loop of mapper_process_main of src/mapper.c over the lines, when no worker runs and the queue has room
-- for all of them.
use mr_lib.Common.{
  ℕ, zero, suc, ◌+◌, ◌%◌, ◌≤◌, ◌<◌, ◌≡◌, refl, ap, sym, ◌∙◌, true, false, List, [], ◌∷◌, Bytes,
  length, size_bytes, size_limit, ◌==◌, ==_differ, arith, Option,
}
use mathlib.Core.Bool.{not}
use mr_lib.Os.{Os}
use mr_lib.Os.Io.{Io, Outcome, ok, pure, ◌>>=◌, syscall_ret, succeed, assert}
use mr_lib.Os.Lawful.{Lawful}
use mr_lib.Os.Yields
use mr_lib.Os.Yields.{Yields, returns, fails}
use mr_lib.Log.{LogFile}
use mr_lib.Protocol.Lines.{MainReceiver, FileLine}
use mr_lib.Protocol.Lines.Laws.{Entry, IsLine, Expects}
use mr_lib.Protocol.Lines.Receive.{Next, receive_line_from_main_fd-Next}
use mr_lib.Queue.{
  Shared, Queue, Threads, mr_queue_push, wait_for_room, pushed, shared_call, local_call,
}
use mr_lib.Queue.Laws.{IsQueue, stack, pushed-stack, pushed-Interfered}
use mr_lib.Reducer.Workers.{despite_failure}
use mr_lib.Reducer.Processing.{Crew}
use mr_lib.Mapper.{line_bytes, line_size}
use mr_lib.Mapper.Controller.{Received, push_line, push_lines, on_line}

-- the calls of a push succeed and change nothing, since no other thread runs
pub record IsOnly {W : Type 0} (threads : Threads W) : Type 0 where
  pub lock : (s : Shared W) → threads.mtx_lock s ≡ (true, s)
  pub unlock : (w : W) → threads.mtx_unlock w ≡ (true, w)
  pub signal : (w : W) → threads.cnd_signal_empty w ≡ (true, w)

-- the lines are those of the entries
abbrev pub AreLines : List Entry → List FileLine → Type 0
AreLines [] [] = Unit
AreLines [] (l ∷ ls) = ⊥
AreLines (e ∷ es) [] = ⊥
AreLines (e ∷ es) (l ∷ ls) = IsLine e l × AreLines es ls

-- the lines one by one on top
abbrev pub on_top : List FileLine → List Bytes → List Bytes
on_top [] below = below
on_top (l ∷ ls) below = on_top ls (line_bytes l ∷ below)

length-line_bytes : (l : FileLine) → length (line_bytes l) ≡ line_size
unfolding line_bytes size_bytes
length-line_bytes l = refl

module _ {W : Type 0} ⦃os : Os W⦄ (threads : Threads W) where
  push-room :
      (push_fuel : ℕ) (x : Bytes) (q : Queue) (w : W)
      → IsOnly threads
      → q.closed ≡ false
      → q.count < q.capacity
      → mr_queue_push threads (suc push_fuel) x (q, w) ≡ (ok tt, (pushed x q, w))
  unfolding mr_queue_push wait_for_room syscall_ret shared_call local_call ◌>>=◌ pure succeed assert
  push-room push_fuel x q w only open_ room =
      let roomy : (q.count == q.capacity) ≡ false = ==_differ q.count q.capacity (omega arith) in
      let fine : not q.closed ≡ true = rw open_ refl in
      rw fine (rw (only.lock (q, w)) (rw roomy (rw (only.signal w) (rw (only.unlock w) refl))))

module _ {W : Type 0} ⦃os : Os W⦄ (law : Lawful os) (threads : Threads W) (crew : Crew W)
    (log_file : LogFile) where
  open law use {Fault, pending}

  -- `todo` has been received and put on the queue, each line once, behind `n` others; or a receive
  -- has failed
  pub data Fed (q : Queue) (n : ℕ) (todo : List Entry) : Received → Shared W → Type 0 where
    all_fed :
        {r : Received} {s : Shared W} (lines : List FileLine)
        → AreLines todo lines
        → r.failed_receive ≡ false
        → r.lines_count % size_limit ≡ (n + length todo) % size_limit
        → s.0.count ≡ q.count + length todo
        → s.0.closed ≡ false
        → stack s.0 ≡ on_top lines (stack q)
        → Fed q n todo r s
    broken : {r : Received} {s : Shared W} → r.failed_receive ≡ true → Fault → Fed q n todo r s

  Fed-Next :
      (q : Queue) (n : ℕ) (e : Entry) (l : FileLine) (todo : List Entry) (r : Received)
      (s : Shared W)
      → IsLine e l
      → stack (pushed (line_bytes l) q) ≡ line_bytes l ∷ stack q
      → Fed (pushed (line_bytes l) q) ((n + 1) % size_limit) todo r s
      → Fed q n (e ∷ todo) r s
  Fed-Next q n e l todo r s is top_of (all_fed lines are fine counted many open_ held) =
      all_fed (l ∷ lines) (is, are) fine (omega (arith, counted)) (omega (arith, many)) open_
        (held ∙ ap (on_top lines) top_of)
  Fed-Next q n e l todo r s is top_of (broken bad fault) = broken bad fault

  -- a line on its way
  push_line-room :
      (push_fuel : ℕ) (l : FileLine) (q : Queue) (w : W)
      → IsOnly threads
      → q.closed ≡ false
      → q.count < q.capacity
      → push_line threads crew log_file (suc push_fuel) l (q, w)
        ≡ (ok tt, (pushed (line_bytes l) q, w))
  unfolding push_line despite_failure
  push_line-room push_fuel l q w only open_ room =
      rw (push-room threads push_fuel (line_bytes l) q w only open_ room) refl

  abbrev Again : Type 0
  Again = MainReceiver → FileLine → Io (Shared W) Received

  on_line-end :
      (k left n : ℕ) (again : Again) (q : Queue) {o : Outcome (MainReceiver × Option FileLine) × W}
      → q.closed ≡ false
      → Yields (Next law log_file 0 k []) Fault o
      → Yields (Fed q n []) ⊥ (on_line threads crew log_file (o.0, (q, o.1)) left n again)
  unfolding pure
  on_line-end k left n again q open_ (returns {a = (r, x)} over) =
      rw over (returns (all_fed [] tt refl (omega arith) (omega arith) open_ refl))
  on_line-end k left n again q open_ (fails e) = returns (broken refl e)

  on_line-Next :
      (k left n : ℕ) (again : Again) (q : Queue) (e : Entry) (todo : List Entry)
      {o : Outcome (MainReceiver × Option FileLine) × W}
      → ((r : MainReceiver) (l : FileLine) (w : W) (j : ℕ)
          → IsLine e l
          → j ≤ k
          → Expects r (pending 0 w) j todo
          → Yields (Fed q n (e ∷ todo)) ⊥ (again r l (q, w)))
      → Yields (Next law log_file 0 k (e ∷ todo)) Fault o
      → Yields (Fed q n (e ∷ todo)) ⊥ (on_line threads crew log_file (o.0, (q, o.1)) left n again)
  unfolding pure
  on_line-Next k left n again q e todo go
        (returns {a = (r, x)} {w = w} (l, here, is, j, le, more)) =
      rw here (go r l w j is le more)
  on_line-Next k left n again q e todo go (fails bad) = returns (broken refl bad)

  -- Where some lines of some files are expected, the queue is open, has room for all of them and is
  -- used by no other thread, and the fuels exceed the numbers of lines and of files, the loop ends with each of
  -- the lines on the queue once, under the name of its file and with its number, the last on top, and
  -- has counted them; or with the report that a receive has failed.
  pub push_lines-Fed :
      (fuel receive_fuel push_fuel k n : ℕ) (r : MainReceiver) (todo : List Entry) (q : Queue)
      (w : W)
      → IsOnly threads
      → IsQueue q
      → q.closed ≡ false
      → q.element_size ≡ line_size
      → q.count + length todo ≤ q.capacity
      → length todo < fuel
      → k < receive_fuel
      → Expects r (pending 0 w) k todo
      → Yields
          (Fed q n todo)
          ⊥
          (push_lines threads crew log_file fuel receive_fuel (suc push_fuel) r n (q, w))
  unfolding push_lines ◌>>=◌ pure
  push_lines-Fed zero receive_fuel push_fuel k n r todo q w only well open_ size room enough rounds
        x =
      absurd (omega (arith, enough))
  push_lines-Fed (suc fuel) receive_fuel push_fuel k n r [] q w only well open_ size room enough
        rounds x =
      on_line-end k _ n _ q open_
        (receive_line_from_main_fd-Next law log_file 0 receive_fuel r k [] w x rounds)
  push_lines-Fed (suc fuel) receive_fuel push_fuel k n r (e ∷ todo) q w only well open_ size room
        enough rounds x =
      on_line-Next k _ n _ q e todo
        (λ r' l w' j is le more.
          let space : q.count < q.capacity = omega (arith, room) in
          let sized : length (line_bytes l) ≡ q.element_size = length-line_bytes l ∙ sym size in
          rw (push_line-room push_fuel l q w' only open_ space) (
            Yields.mono
              (push_lines-Fed fuel receive_fuel push_fuel j ((n + 1) % size_limit) r' todo
                (pushed (line_bytes l) q) w' only
                (pushed-Interfered (line_bytes l) q well space).well open_ size
                (omega (arith, room)) (omega (arith, enough)) (omega (arith, le, rounds)) more)
              λ received s'.
                Fed-Next q n e l todo received s' is
                  (pushed-stack (line_bytes l) q well space sized)))
        (receive_line_from_main_fd-Next law log_file 0 receive_fuel r k (e ∷ todo) w x rounds)
