-- ===== src/Tests/Printing.antt =====
-- A file with the numbers of two words, and what is printed of it.
use Prim.Native.String.{String}
use mr_lib.Common.{
  ℕ, ◌≡◌, refl, Bool, true, false, Option, none, some, List, [], ◌∷◌, ◌++◌, Bytes, length, take,
  drop, leb, map, arith,
}
use mr_lib.Os.{Arg, Os}
use mr_lib.Protocol.Results.Output.{output}
use mr_lib.WordCount.Results.{Stdio, print_entries}
use mr_lib.WordCount.Results.Printing.{Console, Prints, line_of, result_of, print_entries-lines}
use mr_lib.Tests.Calm.{calm}

-- what is left of the file, and what has been printed
record Tape : Type 0 where
  unread : Bytes
  printed : List (String × List Arg)

instance abbrev tape_os : Os Tape
tape_os = record { sys = calm; stale = λ w n. [] }

abbrev read_if : Bool → ℕ → Tape → Option Bytes × Tape
read_if true n w =
    (some (take n w.unread), record { unread = drop n w.unread; printed = w.printed })
read_if false n w = (none, w)

abbrev read_tape : ℕ → Tape → Option Bytes × Tape
read_tape n w = read_if (leb n (length w.unread)) n w

abbrev stdio : Stdio Tape
stdio = record {
  fread = λ file n w. read_tape n w;
  fseek = λ file n w. record { unread = drop n w.unread; printed = w.printed };
  printf =
      λ format args w. record { unread = w.unread; printed = w.printed ++ ((format, args) ∷ []) };
  perror = λ message w. w;
}

read_if-printed : (t : Bool) (n : ℕ) (w : Tape) → (read_if t n w).1.printed ≡ w.printed
read_if-printed true n w = refl
read_if-printed false n w = refl

console : Console tape_os stdio 1
console = record {
  unread = λ w. w.unread;
  printed = λ w. w.printed;
  read_whole =
      λ n w h. let e : leb n (length w.unread) ≡ true = ground arith in (rw e refl, rw e refl);
  read_short = λ n w h. let e : leb n (length w.unread) ≡ false = ground arith in rw e refl;
  read_printed = λ n w. read_if-printed (leb n (length w.unread)) n w;
  printf_printed = λ format args w. refl;
  printf_unread = λ format args w. refl;
  malloc_some = λ size w. (1, refl);
  malloc_kept = λ size w. (refl, refl);
  free_kept = λ p w. (refl, refl);
}

-- twice a, and once b
abbrev counts : List (Bytes × ℕ)
counts = ((97 ∷ []), 2) ∷ ((98 ∷ []), 1) ∷ []

abbrev tape : Tape
tape = record { unread = output (map result_of counts); printed = [] }

print_entries-lines_example :
    Prints console (map line_of counts) tape (print_entries stdio 3 1 tape)
unfolding output console
print_entries-lines_example =
    print_entries-lines console 3 counts tape (omega arith)
      (omega arith, omega arith, (omega arith, omega arith, tt)) refl
