-- ===== src/Reducer/Workers.antt =====
-- reducer_worker of src/reducer.c: a thread that takes nodes from the queue. The world `W` is here one
-- with the counter of the results, and `emit` stands for `reducer_emit` with the argument of the
-- thread.
pub mod Draining
use Prim.Native.String.{String}
use mr_lib.Common.{
  ℕ, zero, suc, Bool, true, false, Option, none, some, List, [], ◌∷◌, ◌++◌, Bytes, of_bytes, ◌==◌,
  if◌then◌else◌,
}
use mr_lib.Os.{Arg, Os}
use mr_lib.Os.Io.{
  Io, Outcome, ok, fail, Stop, halt, pure, ◌>>=◌, ◌>>◌, Handler, no_handler, ◌then_do◌,
  syscall_exit, free, ignore,
}
use mr_lib.Log.{LogFile, mr_log_info, mr_log_error}
use mr_lib.Queue.{Shared, Threads, mr_queue_pop}
use mr_lib.Reducer.Table.{Value, TokenNode, Chain, free_values}

-- code that leaves the queue alone
abbrev pub beside_queue : {A W : Type 0} → Io W A → Io (Shared W) A
beside_queue m s = ((m s.1).0, (s.0, (m s.1).1))

abbrev pub beside_queue_do : {W : Type 0} → Handler W → Handler (Shared W)
beside_queue_do h s = (s.0, h s.1)

-- `== 0` of a pop: a return of -1 ends a loop as a return of 1 does
abbrev pub or_none : {A W : Type 0} → Outcome (Option A) × W → Outcome (Option A) × W
or_none (ok a, w) = (ok a, w)
or_none (fail, w) = (ok none, w)
or_none (halt r, w) = (halt r, w)

unfoldable pub pop_or_stop : {A W : Type 0} → Io W (Option A) → Io W (Option A)
pop_or_stop m w = or_none (m w)

-- `if (... != 0) { command; }`
abbrev pub go_on : {W : Type 0} → Outcome (Unit {0}) × W → Handler W → Outcome (Unit {0}) × W
go_on (ok a, w) h = (ok a, w)
go_on (fail, w) h = (ok tt, h w)
go_on (halt r, w) h = (halt r, w)

unfoldable pub despite_failure : {W : Type 0} → Io W (Unit {0}) → Handler W → Io W (Unit {0})
despite_failure m h w = go_on (m w) h

-- the node that an address names among some
unfoldable pub node_at : Chain → ℕ → Option TokenNode
node_at [] address = none
node_at (node ∷ nodes) address =
    if node.address == address then some node else node_at nodes address

-- the user's function on a token, its values and their number; it fails if it returns anything but 0
abbrev pub ReducerFunction : Type 0 → Type 0
ReducerFunction W =
    (token : Bytes)
    → List Value
    → (values_count : ℕ) → (emit : (token result : Bytes) → Io W (Unit {0})) → Io W (Unit {0})

module _ {W : Type 0} ⦃os : Os W⦄ where
  -- what a worker frees of a node
  unfoldable pub release_node : TokenNode → Handler W
  release_node node =
      free node.token.address
      then_do free_values node.values
      then_do free node.array
      then_do free node.address

module _ {W : Type 0} ⦃os : Os W⦄ (threads : Threads W) (reducer : ReducerFunction W)
    (emit : (token result : Bytes) → Io W (Unit {0})) where
  -- the user's function on one node
  unfoldable pub reduce_node : LogFile → (thread_name : String) → TokenNode → Io W (Unit {0})
  unfolding release_node
  reduce_node log_file thread_name node = do
    despite_failure (reducer node.token.bytes node.values node.count emit) (
        mr_log_error log_file "Reducer" thread_name "User reducer function failed for token %s"
          (Arg.bytes node.token.bytes ∷ []))
    λ w. pure tt (release_node node w)

  -- one turn of the loop, and `next`; an address of no node is not looked at in C
  unfoldable pub visit :
      (next : Io (Shared W) (Unit {0}))
      → LogFile
      → (thread_name : String) → Option TokenNode
      → Io (Shared W) (Unit {0})
  visit next log_file thread_name none = λ s. (halt Stop.undefined, s)
  visit next log_file thread_name (some node) = do
    beside_queue (reduce_node log_file thread_name node)
    next

  -- The loop. `nodes` are those of the hash table.
  unfoldable pub reduce_all :
      (fuel : ℕ)
      → (pop_fuel : ℕ) → LogFile
      → (thread_name : String) → (nodes : Chain) → Io (Shared W) (Unit {0})
  reduce_all zero pop_fuel log_file thread_name nodes = λ s. (halt Stop.out_of_fuel, s)
  reduce_all (suc fuel) pop_fuel log_file thread_name nodes = do
    popped ← pop_or_stop (mr_queue_pop threads pop_fuel)
    elim popped [
      | none ↦ pure tt
      | some element ↦
          visit (reduce_all fuel pop_fuel log_file thread_name nodes) log_file thread_name
            (node_at nodes (of_bytes element))
    ]

  unfoldable pub reducer_worker :
      (fuel : ℕ)
      → (pop_fuel : ℕ) → LogFile
      → (thread_name : String) → (nodes : Chain) → Io (Shared W) (Unit {0})
  reducer_worker fuel pop_fuel log_file thread_name nodes = do
    syscall_exit
        (beside_queue
          (mr_log_info log_file "Reducer" thread_name "Reducer worker thread started" []))
        no_handler
    reduce_all fuel pop_fuel log_file thread_name nodes
    syscall_exit
        (beside_queue
          (mr_log_info log_file "Reducer" thread_name "Reducer worker thread finished" []))
        no_handler
