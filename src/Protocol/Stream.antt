-- ===== src/Protocol/Stream.antt =====
-- `read_n` and `write_n`: transfers of an exact number of bytes by calls that may move fewer.
-- A read gives the bytes that it put in front of the buffer; their number is what C returns.
pub mod Laws
use mr_lib.Common.{
  ℕ, zero, suc, ◌+◌, ◌-◌, Bool, true, false, List, [], ◌∷◌, ◌++◌, Bytes, length, drop, ltb,
  if◌then◌else◌,
}
use mr_lib.Os.{Os}
use mr_lib.Os.Io.{Io, Outcome, Stop, pure, ◌>>=◌, no_handler, syscall_ret}
use mr_lib.Os.Calls

abbrev pub out_of_fuel : {A W : Type 0} → Io W A
out_of_fuel w = (Outcome.halt Stop.out_of_fuel, w)

abbrev pub is_empty : Bytes → Bool
is_empty [] = true
is_empty (_ ∷ _) = false

module _ {W : Type 0} ⦃os : Os W⦄ where
  -- `buf` holds the `total_read` bytes that have come
  read_loop : ℕ → (fd n : ℕ) → Bytes → Io W Bytes
  read_loop zero fd n buf = out_of_fuel
  read_loop (suc fuel) fd n buf =
      let round = do
        bytes ← syscall_ret (Calls.read fd (n - length buf)) no_handler
        if is_empty bytes then pure buf else read_loop fuel fd n (buf ++ bytes)
      in if ltb (length buf) n then round else pure buf

  -- each round but the last brings a byte, so n + 1 rounds are enough
  unfoldable pub read_n : (fd n : ℕ) → Io W Bytes
  unfolding read_loop
  read_n fd n = read_loop (n + 1) fd n []

  write_loop : ℕ → (fd : ℕ) → Bytes → ℕ → Io W ℕ
  write_loop zero fd buffer total_written = out_of_fuel
  write_loop (suc fuel) fd buffer total_written =
      let round = do
        bytes_written ← syscall_ret (Calls.write fd (drop total_written buffer)) no_handler
        write_loop fuel fd buffer (total_written + bytes_written)
      in if ltb total_written (length buffer) then round else pure total_written

  unfoldable pub write_n : ℕ → Bytes → Io W ℕ
  unfolding write_loop
  write_n fd buffer = write_loop (length buffer + 1) fd buffer 0
