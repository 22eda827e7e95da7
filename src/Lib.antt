-- ===== src/Lib.antt =====
-- libmr: MapReduce on one machine, in C.
--
-- The program. A client fills attributes (src/mr.c), makes a job and starts it. The main process
-- makes three pipes and forks a mapper and a reducer (src/core.c). It sends the lines of the input
-- files to the mapper, the mapper sends pairs of a token and a value to the reducer, and the reducer
-- groups the values by token and sends results to the main process, which writes them to the output
-- file (src/protocol.c, src/mapper.c, src/reducer.c). In the mapper and in the reducer a bounded
-- queue hands work to threads (src/queue.c). All three processes write to one log, in turn by a named
-- semaphore (src/log.c).
--
-- The model. A function of the program is a function from the world to a result beside the next world
-- (Os.Io): `ok`, `fail` for a return of -1 or EXIT_FAILURE, and `halt` for a failed assertion, for a
-- loop whose fuel is used up, for `_exit`, and for a call that C leaves undefined. The calls of the C
-- library and of POSIX are the parameter `Os` (Os), one request for each function; `Os.Calls` are
-- those whose failure the code tests. What the code relies on of them is the record `Lawful`
-- (Os.Lawful), whose `Fault` says whether calls may fail at all. `Yields` (Os.Yields) says how a
-- run ends, and that it does not halt. `Quiet` (Os.Quiet) is code that leaves descriptors and
-- files alone if it succeeds, `Steady` (Os.Steady) however it ends. The macros of src/utils.h are
-- `syscall_ret` and `syscall_exit` (Os.Io); their handler is what an error path does.
--
--   Common            lists and tests on native numbers; the bytes of a size_t (Common.Memory)
--   Log               src/log.c: mr_log_init, mr_log, mr_log_destroy; the value of the semaphore is
--                     the record `Counter` (Log.Balance)
--   Protocol.Stream   src/protocol.c: read_n and write_n
--   Protocol.Headers  src/protocol.h: the four headers and their bytes
--   Protocol.Pair     send_pair_to_reducer_fd, receive_pair_from_mapper_fd
--   Protocol.Results  send_result_to_main_fd, receive_output_from_reducer
--   Protocol.Lines    mr_main_receiver_t and receive_line_from_main_fd
--   Protocol.Input    send_file_to_mapper (Loop, Laws), send_files_in_directory_to_mapper and
--                     send_input_to_mapper (Directory), and the input that is sent (Sender)
--   Protocol.Ends     the functions that pass a standard descriptor
--   Reducer.Table     src/reducer.c: the hash table of tokens; a pointer to a node is a `Place`; the
--                     table as a map (Chain, Lookup) and its shape (Shape), the blocks of its arrays
--                     (Room; their sizes are the record `Heap`), and what is freed (Freeing)
--   Reducer.Collect   the loop of reducer_process_main that receives pairs, with its way out; the nodes
--                     that it leaves (Nodes)
--   Reducer.Workers   reducer_worker of src/reducer.c, alone on a queue (Draining)
--   Reducer.Processing  the rest of reducer_process_main; the order of the nodes (Order), and what
--                     workers have been joined when it returns (Joining, Ending)
--   Queue             src/queue.c, each operation from the lock to the unlock (Init, Operations), what a
--                     thread holds behind its lock and its waits (Held); many threads by steps
--                     (System), with an invariant on their numbers (Census, Sound, Wakeups), where they
--                     go on (Progress), the stack that they share (Refinement), and the elements
--                     that go in and out (Delivery)
--   Emit              mapper_emit of src/mapper.c and reducer_emit of src/reducer.c; what they send when
--                     no other worker runs (Alone)
--   Attr              src/mr.c and the checks, mr_init and mr_cleanup of src/core.c
--   Mapper            src/mapper.c: mapper_worker, alone on a queue (Draining), the lines in the queue
--                     (Elements), mapper_process_main (Controller), and its loop over the lines (Feeding)
--   WordCount         examples/word_count/main.c: the mapper and the reducer (Words), and print_results
--                     (Results, Printing); the words in the table of the reducer (Totals, Nodes), and
--                     the word count from the lines to the output file (Sending, Pipeline, Input,
--                     Reducing), and main with what it frees (Main, Cleanup)
--   Process           src/core.c: the calls on processes and pipes are the parameter `Processes`
--                     (Calls); the children (Spawn) and the main process (Main), with mr_run and mr_start;
--                     `Wiring` (Wiring, Children) says what descriptors refer to, `Children` (Waiting)
--                     which children have been waited for
--   Tests             small worlds, threads that run alone, and examples
--
-- The build that is modelled is the one with assertions and with time stamps in the log, on a machine
-- whose addresses and size_t have 64 bits and whose low byte comes first. A header is the bytes of its
-- struct; padding, and what a block holds before it is written, is arbitrary (`stale`). The asserts
-- that a pointer is not null and a descriptor not negative hold by the types; an empty token whose block
-- is refused is received as the empty text. The count of the values of a token is not wrapped. Sizes wrap at 2 ^ 64. A
-- `char` in the hash function is signed.
--
-- Fuel. `read_n` and `write_n` have one step more than bytes, since each call moves at least one. The
-- loops over lines, results and pairs take fuel from the caller, and one step more than there are
-- lines, results or pairs is enough; `receive_line_from_main_fd` needs one step more than there are
-- files left to end. The waits of the queue are bounded by nothing in the code, so a run that uses up
-- its fuel there is a thread that still waits. A worker needs one step more than the elements that it
-- takes, and print_results one more than there are results.
--
-- Threads. The queue's operations run among other threads: a call that may let others run returns the
-- queue as they leave it, and `Rely` (Queue.Operations) says of them what `Interfered` says of a
-- queue before and after. The buffer is cut in elements, and a write past its end changes nothing.
--
-- In `System` (Queue.System) the calls of <threads.h> succeed and do what the standard of C says: a
-- mutex is taken by one thread, `cnd_wait` gives it up, `cnd_signal` wakes up one waiting thread if
-- there is one, and a thread may be woken up by nobody. The calls of an operation are separate steps
-- there.
--
-- Not modelled: a release build without assertions. What a child runs is an argument of
-- `spawn_processes`, and a fork answers once, in the child or in the parent. Of a receiver after a
-- failed call only the name that it holds is kept (`name_left`, Mapper.Controller). Where processes are
-- composed, the reader of a pipe runs behind its writer, with one worker of a kind.
pub mod Common
pub mod Os
pub mod Log
pub mod Protocol
pub mod Reducer
pub mod Queue
pub mod Attr
pub mod Emit
pub mod Process
pub mod Mapper
pub mod WordCount
mod Tests
