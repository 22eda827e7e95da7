-- ===== src/WordCount/Results.antt =====
-- print_results of src/examples/word_count/main.c: what it prints of an output file.
pub mod Printing
use Prim.Native.String.{String}
use mr_lib.Common.{
  ℕ, zero, suc, ◌+◌, ◌%◌, Bool, true, false, Option, none, some, List, [], ◌∷◌, Bytes, of_bytes,
  ◌==◌, size_limit, if◌then◌else◌,
}
use mr_lib.Os.{Arg, Os}
use mr_lib.Os.Io.{
  Io, Outcome, ok, fail, Stop, halt, pure, need, ◌>>=◌, ◌>>◌, Handler, syscall_ret, free, ignore,
}
use mr_lib.Os.Calls

-- The calls of <stdio.h> that the example makes beside those of `Os`. `fread` of a number of bytes
-- answers nothing where fewer were read; `printf` writes to the standard output.
pub record Stdio (W : Type 0) : Type 0 where
  pub fread : (file count : ℕ) → W → Option Bytes × W
  pub fseek : (file offset : ℕ) → Handler W
  pub printf : (format : String) → List Arg → Handler W
  pub perror : (message : String) → Handler W

abbrev pub size_t_bytes : ℕ
size_t_bytes = 8

-- the loop around a turn; a turn that fails is one that breaks out of it
abbrev pub next_turn :
    {W : Type 0} → Outcome (Unit {0}) × W → Io W (Unit {0}) → Outcome (Unit {0}) × W
next_turn (ok a, w) again = again w
next_turn (fail, w) again = (ok tt, w)
next_turn (halt r, w) again = (halt r, w)

module _ {W : Type 0} ⦃os : Os W⦄ (stdio : Stdio W) where
  open stdio use {fread, fseek, printf, perror}

  unfoldable pub fread_or_break : (file count : ℕ) → Io W Bytes
  fread_or_break file count w = need (fread file count w).0 (fread file count w).1

  abbrev pub do_then : {A : Type 0} → Handler W → Io W A → Io W A
  do_then h m w = m (h w)

  -- behind the size of the result
  unfoldable pub print_value : (f block : ℕ) → (token : Bytes) → (result_size : ℕ) → Io W (Unit {0})
  print_value f block token result_size =
      if result_size == size_t_bytes
      then (do
        count ← syscall_ret (fread_or_break f size_t_bytes) (free block)
        do_then (printf "%s: %zu\n" (Arg.bytes token ∷ Arg.num (of_bytes count) ∷ [])) (pure tt))
      else do_then (fseek f result_size)
          (do_then (printf "%s: [unknown data]\n" (Arg.bytes token ∷ [])) (pure tt))

  -- a turn of the loop
  unfoldable pub print_entry : (f : ℕ) → Io W (Unit {0})
  print_entry f = do
    token_len ← fread_or_break f size_t_bytes
    block ← Calls.malloc ((of_bytes token_len + 1) % size_limit)
    token ← syscall_ret (fread_or_break f (of_bytes token_len)) (free block)
    result_size ← syscall_ret (fread_or_break f size_t_bytes) (free block)
    print_value f block token (of_bytes result_size)
    do_then (free block) (pure tt)

  unfoldable pub print_entries : (fuel : ℕ) → (f : ℕ) → Io W (Unit {0})
  print_entries zero f = λ w. (halt Stop.out_of_fuel, w)
  print_entries (suc fuel) f = λ w. next_turn (print_entry f w) (print_entries fuel f)

  -- with the file, or without one
  unfoldable pub print_file : (fuel : ℕ) → Option ℕ → Io W (Unit {0})
  print_file fuel none = do_then (perror "fopen output") (pure tt)
  print_file fuel (some f) = do_then (printf "\n--- Results ---\n" []) (do
    print_entries fuel f
    do_then (printf "----------------\n" []) (do_then (ignore (Calls.fclose f)) (pure tt)))

  unfoldable pub print_results : (fuel : ℕ) → (path : Bytes) → Io W (Unit {0})
  unfolding print_file
  print_results fuel path = λ w.
      print_file fuel (os.sys (mr_lib.Os.Request.fopen path "rb") w).0
        (os.sys (mr_lib.Os.Request.fopen path "rb") w).1
