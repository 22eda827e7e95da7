-- ===== src/Protocol/Pair.antt =====
-- The pairs that the mapper sends to the reducer.
pub mod Laws
use mr_lib.Common.{
  ℕ, zero, suc, ◌+◌, ◌%◌, Bool, true, false, Option, none, some, [], ◌∷◌, ◌++◌, Bytes, length, take,
  drop, ltb, ◌==◌, ◌&&◌, size_limit, if◌then◌else◌,
}
use mr_lib.Os.{Request, Os}
use mr_lib.Os.Io.{
  Io, pure, failed, ◌>>=◌, ◌>>◌, Handler, no_handler, ◌then_do◌, syscall_ret, call, free,
}
use mr_lib.Log.{LogFile, c_string, mr_log_error}
use mr_lib.Protocol.Stream.{write_n}
use mr_lib.Protocol.Headers.{PairHeader, pair_header_bytes, pair_header_of, read_object}

-- A block from `malloc`, or NULL where the address is 0, and what its first bytes are. A token has
-- one more byte, the terminator.
pub record Buffer : Type 0 where
  pub address : ℕ
  pub bytes : Bytes

-- `*out_token`, `*out_value` and `*out_value_size`
pub record Pair : Type 0 where
  pub token : Buffer
  pub value : Buffer
  pub value_size : ℕ

abbrev pub null_or : Option ℕ → ℕ
null_or none = 0
null_or (some p) = p

module _ {W : Type 0} ⦃os : Os W⦄ where
  -- `if (n > 0) write_n(...)`, with what to do when that fails
  unfoldable pub write_some : ℕ → Bytes → Handler W → Io W ℕ
  write_some fd bs handler =
      if ltb 0 (length bs) then syscall_ret (write_n fd bs) handler else pure 0

  -- `if (n > 0) read_n(...)` into a fresh block: what the block holds
  unfoldable pub read_some : (fd n : ℕ) → Handler W → Io W Bytes
  read_some fd n handler =
      if ltb 0 n then (do (_, bs) ← syscall_ret (read_object fd n) handler; pure bs) else pure []

  unfoldable pub send_pair_to_reducer_fd : LogFile → ℕ → (token value : Bytes) → Io W (Unit {0})
  unfolding write_some
  send_pair_to_reducer_fd log_file write_fd token value = do
    let text = c_string token
    let header : PairHeader = record { token_length = length text; value_length = length value }
    syscall_ret (write_n write_fd (pair_header_bytes header)) (
        mr_log_error log_file "Mapper" "Controller" "Failed to send pair header to reducer process"
          [])
    write_some write_fd text
        (mr_log_error log_file "Mapper" "Controller" "Failed to send token to reducer process" [])
    write_some write_fd value (
        mr_log_error log_file "Mapper" "Controller" "Failed to send value data to reducer process"
          [])
    pure tt

  -- `if (p == NULL && needed > 0) { handler; return -1; }` behind the call of `malloc`
  unfoldable pub allocate : (size needed : ℕ) → Handler W → Io W ℕ
  allocate size needed handler = do
    block ← call (Request.malloc size)
    if (null_or block == 0) && ltb 0 needed
        then syscall_ret failed handler
        else pure (null_or block)

  -- `none` is the return of 1, at the end of file. A short read is not looked at.
  unfoldable pub receive_pair_from_mapper_fd : LogFile → ℕ → Io W (Option Pair)
  receive_pair_from_mapper_fd log_file read_fd = do
    (bytes_read, object) ← syscall_ret (read_object read_fd 16) (
        mr_log_error log_file "Mapper" "Controller" "Failed to read pair header from mapper process"
          [])
    let header = pair_header_of object
    if bytes_read == 0 then pure none else do
      token ←
          allocate ((header.token_length + 1) % size_limit) header.token_length
            (mr_log_error log_file "Reducer" "Controller" "Failed to allocate memory for token" [])
      text ← read_some read_fd header.token_length (
          mr_log_error log_file "Reducer" "Controller" "Failed to read token from mapper process" []
          then_do free token)
      value ← allocate header.value_length header.value_length (
          mr_log_error log_file "Reducer" "Controller" "Failed to allocate memory for value" []
          then_do free token)
      bytes ← read_some read_fd header.value_length (
          mr_log_error log_file "Reducer" "Controller"
            "Failed to read value data from mapper process" []
          then_do free token
          then_do free value)
      pure (
          some (record {
            token = record { address = token; bytes = text };
            value = record { address = value; bytes = bytes };
            value_size = header.value_length;
          }))
