-- ===== src/Reducer/Collect.antt =====
-- The collection phase of `reducer_process_main` of src/reducer.c.
pub mod Laws
pub mod Nodes
use mr_lib.Common.{ℕ, zero, suc, ◌+◌, ◌%◌, size_limit, Option, none, some, [], ◌∷◌}
use mr_lib.Os.{Arg, Os}
use mr_lib.Os.Io.{Io, Stop, halt, pure, ◌>>=◌, Handler, ◌then_do◌, syscall_ret, free}
use mr_lib.Log.{LogFile, mr_log_error}
use mr_lib.Protocol.Pair.{Pair, receive_pair_from_mapper_fd}
use mr_lib.Reducer.Table.{
  Table, Place, write_back, find_or_create_token, add_value_to_token, cleanup_hash_table,
}

-- `hash_table` and `pairs_received`
pub record Collected : Type 0 where
  pub hash_table : Table
  pub pairs_received : ℕ

module _ {W : Type 0} ⦃os : Os W⦄ where
  -- the way out when `res == -1`
  give_up : LogFile → Table → Handler W
  give_up log_file hash_table =
      mr_log_error log_file "Reducer" "Controller" "Error during collection phase" []
      then_do cleanup_hash_table hash_table

  unfoldable pub store_pair : LogFile → Table → Pair → Io W Table
  unfolding give_up
  store_pair log_file hash_table pair = do
    node ← syscall_ret (find_or_create_token hash_table pair.token.bytes) (
        mr_log_error log_file "Reducer" "Controller"
          "Failed to find or create token node for token %s" (Arg.bytes pair.token.bytes ∷ [])
        then_do free pair.token.address
        then_do free pair.value.address
        then_do give_up log_file hash_table)
    grown_node ← syscall_ret (add_value_to_token node.node pair.value pair.value_size) (
        mr_log_error log_file "Reducer" "Controller"
          "Failed to add value to token node for token %s" (Arg.bytes pair.token.bytes ∷ [])
        then_do free pair.token.address
        then_do free pair.value.address
        then_do give_up log_file (write_back hash_table node node.node))
    λ w. pure (write_back hash_table node grown_node) (free pair.token.address w)

  -- the loop; the descriptor is that of the standard input in the process
  unfoldable pub collect : (fuel : ℕ) → LogFile → ℕ → Table → (pairs_received : ℕ) → Io W Collected
  unfolding give_up
  collect zero log_file read_fd hash_table pairs_received = λ w. (halt Stop.out_of_fuel, w)
  collect (suc fuel) log_file read_fd hash_table pairs_received = do
    received ←
        syscall_ret (receive_pair_from_mapper_fd log_file read_fd) (give_up log_file hash_table)
    elim received [
      | none ↦ pure (record { hash_table = hash_table; pairs_received = pairs_received })
      | some pair ↦ do
        stored ← store_pair log_file hash_table pair
        collect fuel log_file read_fd stored ((pairs_received + 1) % size_limit)
    ]
