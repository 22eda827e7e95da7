-- ===== src/WordCount.antt =====
-- src/examples/word_count/main.c: a mapper and a reducer that count words. `isalnum` and `tolower` of
-- the C library are parameters, and so are the functions that emit.
pub mod Words
pub mod Results
pub mod Totals
pub mod Nodes
pub mod Sending
pub mod Pipeline
pub mod Reducing
pub mod Input
pub mod Main
use mr_lib.Common.{
  ℕ, zero, suc, ◌+◌, ◌%◌, Bool, true, false, Option, none, some, List, [], ◌∷◌, ◌++◌, map, Bytes,
  length, take, size_limit, size_bytes, if◌then◌else◌,
}
use mr_lib.Os.{Os}
use mr_lib.Os.Io.{Io, Stop, halt, pure, ◌>>=◌, ◌>>◌, syscall_ret, ignore, free}
use mr_lib.Os.Calls
use mr_lib.Protocol.Lines.{FileLine}

-- the functions of <ctype.h> that are used, on an unsigned char
pub record Ctype : Type 0 where
  pub isalnum : ℕ → Bool
  pub tolower : ℕ → ℕ

module _ (ctype : Ctype) where
  open ctype use {isalnum, tolower}

  -- `while (curr < end && !isalnum(*curr)) curr++`
  abbrev pub skip : Bytes → Bytes
  skip [] = []
  skip (b ∷ bs) = if isalnum b then b ∷ bs else skip bs

  -- `while (curr < end && isalnum(*curr)) curr++`: what it passes, and what is left
  abbrev pub passed : Bytes → Bytes
  passed [] = []
  passed (b ∷ bs) = if isalnum b then b ∷ passed bs else []

  abbrev pub left : Bytes → Bytes
  left [] = []
  left (b ∷ bs) = if isalnum b then left bs else b ∷ bs

  module _ {W : Type 0} ⦃os : Os W⦄ (emit : (token value : Bytes) → Io W (Unit {0})) where
    -- the copy of a token in lower case, with its terminator, and what is done with it
    unfoldable pub emit_token : Bytes → Io W (Unit {0})
    emit_token token = do
      address ← Calls.malloc ((length token + 1) % size_limit)
      syscall_ret (emit (map tolower token ++ (0 ∷ [])) []) (free address)
      λ w. pure tt (free address w)

    -- a turn of the outer loop behind the bytes that are skipped, with what comes after it
    abbrev pub turn : (next : Bytes → Io W (Unit {0})) → Bytes → Io W (Unit {0})
    turn next [] = pure tt
    turn next (b ∷ bs) = do emit_token (passed (b ∷ bs)); next (left (b ∷ bs))

    -- the outer loop, from `curr` on
    unfoldable pub scan : (fuel : ℕ) → Bytes → Io W (Unit {0})
    scan zero rest = λ w. (halt Stop.out_of_fuel, w)
    scan (suc fuel) [] = pure tt
    scan (suc fuel) (b ∷ bs) = turn (scan fuel) (skip (b ∷ bs))

    -- each turn of the loop passes a byte at least
    unfoldable pub word_count_mapper : FileLine → Io W (Unit {0})
    word_count_mapper line =
        let text = take line.line_len line.line.bytes in scan (length text + 1) text

unfoldable pub word_count_reducer :
    {W : Type 0}
    → (emit : (token value : Bytes) → Io W (Unit {0})) → (token : Bytes) → (values_count : ℕ)
    → Io W (Unit {0})
word_count_reducer emit token values_count = emit token (size_bytes values_count)
