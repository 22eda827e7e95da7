-- ===== src/Process/Wiring.antt =====
-- The descriptors of a process that refer to the three pipes of a job, and what the calls of
-- src/core.c do to them.
use mr_lib.Common.{ℕ, ◌≡◌, refl, true, Option, none, some, ◌==◌, get_or, [], ◌∷◌, if◌then◌else◌}
use mr_lib.Os.{Os}
use mr_lib.Os.Io.{Outcome, ok, fail, halt, Stop, after, Handler, recover}
use mr_lib.Os.Lawful.{update}
use mr_lib.Process.{Pipe, Processes, exit_failure, leave_on_failure}
use mr_lib.Process.Spawn.{Pipes, stdin_fileno, stdout_fileno}
use mr_lib.Os as System
use mr_lib.Process as Posix

-- the six ends of the pipes
pub data End : Type 0 where
  main_to_mapper_read main_to_mapper_write mapper_to_reducer_read mapper_to_reducer_write
        reducer_to_main_read reducer_to_main_write :
      End

-- the places of a descriptor table that the code speaks of
pub data Slot : Type 0 where
  stdin stdout : Slot
  at_end : End → Slot

abbrev pub fd_of_end : Pipes → End → ℕ
fd_of_end p main_to_mapper_read = p.main_to_mapper.read_end
fd_of_end p main_to_mapper_write = p.main_to_mapper.write_end
fd_of_end p mapper_to_reducer_read = p.mapper_to_reducer.read_end
fd_of_end p mapper_to_reducer_write = p.mapper_to_reducer.write_end
fd_of_end p reducer_to_main_read = p.reducer_to_main.read_end
fd_of_end p reducer_to_main_write = p.reducer_to_main.write_end

abbrev pub fd_of : Pipes → Slot → ℕ
fd_of p stdin = stdin_fileno
fd_of p stdout = stdout_fileno
fd_of p (at_end e) = fd_of_end p e

-- slots by number, to compare them
abbrev pub index : Slot → ℕ
index stdin = 0
index stdout = 1
index (at_end main_to_mapper_read) = 2
index (at_end main_to_mapper_write) = 3
index (at_end mapper_to_reducer_read) = 4
index (at_end mapper_to_reducer_write) = 5
index (at_end reducer_to_main_read) = 6
index (at_end reducer_to_main_write) = 7

-- the slots of a job are different descriptors
abbrev pub AreApart : Pipes → Type 0
AreApart p = (s t : Slot) → fd_of p s ≡ fd_of p t → index s ≡ index t

-- a table with all six ends, and nothing of them at the standard descriptors
abbrev pub inherited : Slot → Option End
inherited stdin = none
inherited stdout = none
inherited (at_end e) = some e

-- what the mapper, the reducer and the main process are to be left with
abbrev pub mapper_table : Slot → Option End
mapper_table stdin = some main_to_mapper_read
mapper_table stdout = some mapper_to_reducer_write
mapper_table (at_end _) = none

abbrev pub reducer_table : Slot → Option End
reducer_table stdin = some mapper_to_reducer_read
reducer_table stdout = some reducer_to_main_write
reducer_table (at_end _) = none

abbrev pub main_table : Slot → Option End
main_table (at_end main_to_mapper_write) = some main_to_mapper_write
main_table (at_end reducer_to_main_read) = some reducer_to_main_read
main_table _ = none

abbrev pub slot_at : ℕ → Slot
slot_at n =
    get_or
      (stdin
        ∷ stdout
        ∷ at_end main_to_mapper_read
        ∷ at_end main_to_mapper_write
        ∷ at_end mapper_to_reducer_read
        ∷ at_end mapper_to_reducer_write
        ∷ at_end reducer_to_main_read
        ∷ at_end reducer_to_main_write
        ∷ [])
      n stdin

pub slot_at-index : (s : Slot) → slot_at (index s) ≡ s
slot_at-index stdin = refl
slot_at-index stdout = refl
slot_at-index (at_end main_to_mapper_read) = refl
slot_at-index (at_end main_to_mapper_write) = refl
slot_at-index (at_end mapper_to_reducer_read) = refl
slot_at-index (at_end mapper_to_reducer_write) = refl
slot_at-index (at_end reducer_to_main_read) = refl
slot_at-index (at_end reducer_to_main_write) = refl

abbrev pub put : Slot → Option End → (Slot → Option End) → Slot → Option End
put s x v t = if index s == index t then x else v t

-- What is relied on of the calls: `table w fd` is the end of a pipe of the job that the descriptor
-- refers to. A `close` that fails may do anything.
pub record Wiring {W : Type 0} (os : Os W) (processes : Processes W) : Type 0 where
  pub table : W → ℕ → Option End
  pub table_os : (r : System.Request) (w : W) → table (os.sys r w).1 ≡ table w
  pub closed :
      (fd : ℕ) (w : W)
      → (processes.sys (Posix.close fd) w).0 ≡ true
      → table (processes.sys (Posix.close fd) w).1 ≡ update fd none (table w)
  pub duplicated :
      (from to : ℕ) (w : W)
      → (processes.sys (Posix.dup2 from to) w).0 ≡ true
      → table (processes.sys (Posix.dup2 from to) w).1 ≡ update to (table w from) (table w)

-- How code of a child ends: with a world as stated, by `_exit` with a failure, or with -1.
pub data Reaches {A W : Type 0} (Q : A → W → Type 0) : Outcome A × W → Type 0 where
  goes : {a : A} {w : W} → Q a w → Reaches Q (ok a, w)
  exits : {w : W} → Reaches Q (halt (Stop.exited exit_failure), w)
  returned : {w : W} → Reaches Q (fail, w)

pub Reaches-bind :
    {A B W : Type 0} {P : A → W → Type 0} {Q : B → W → Type 0} {o : Outcome A × W}
    {f : A → W → Outcome B × W}
    → Reaches P o
    → ((a : A) (w : W) → P a w → Reaches Q (f a w))
    → Reaches Q (after o f)
Reaches-bind (goes p) next = next _ _ p
Reaches-bind exits next = exits
Reaches-bind returned next = returned

pub Reaches-exit :
    {A W : Type 0} {P : A → W → Type 0} {o : Outcome A × W} (h : Handler W)
    → Reaches P o
    → Reaches P (leave_on_failure o h)
Reaches-exit h (goes p) = goes p
Reaches-exit h exits = exits
Reaches-exit h returned = exits

pub Reaches-return :
    {A W : Type 0} {P : A → W → Type 0} {o : Outcome A × W} (h : Handler W)
    → Reaches P o
    → Reaches P (recover o h)
Reaches-return h (goes p) = goes p
Reaches-return h exits = exits
Reaches-return h returned = returned

pub Reaches-mono :
    {A W : Type 0} {P Q : W → Type 0} {o : Outcome A × W}
    → Reaches (λ _. P) o
    → ((w : W) → P w → Q w)
    → Reaches (λ _. Q) o
Reaches-mono (goes p) weaken = goes (weaken _ p)
Reaches-mono exits weaken = exits
Reaches-mono returned weaken = returned
