-- ===== src/WordCount/Main.antt =====
-- main of src/examples/word_count/main.c. What the two children run, which depends on the job, is an
-- argument, and so is what stands in the attributes before they are initialised.
pub mod Cleanup
use Prim.Native.String.{String}
use mr_lib.Common.{ℕ, Option, none, some, List, [], ◌∷◌, Bytes}
use mr_lib.Os.{Arg, Os}
use mr_lib.Os.Io.{
  Io, Stop, halt, pure, failed, need, ◌>>=◌, ◌>>◌, Handler, no_handler, ◌then_do◌, syscall_exit,
}
use mr_lib.Log.{LogFile}
use mr_lib.Attr.{
  Attr, Mr, mr_attr_init, mr_attr_set_mapper_threads, mr_attr_set_reducer_threads,
  mr_attr_set_queue_size, mr_attr_set_log_file, mr_attr_destroy, mr_create, mr_destroy,
}
use mr_lib.Process.{Processes}
use mr_lib.Process.Main.{mr_start}
use mr_lib.WordCount.Results.{Stdio, do_then, print_results}

-- `printf` to the standard error
pub record Usage (W : Type 0) : Type 0 where
  pub eprintf : (format : String) → List Arg → Handler W

-- "word_count.log"
abbrev pub log_name : Bytes
log_name = 119 ∷ 111 ∷ 114 ∷ 100 ∷ 95 ∷ 99 ∷ 111 ∷ 117 ∷ 110 ∷ 116 ∷ 46 ∷ 108 ∷ 111 ∷ 103 ∷ []

-- a setter whose result is not looked at
abbrev pub kept_if_refused : Attr → Option Attr → Attr
kept_if_refused attr none = attr
kept_if_refused attr (some changed) = changed

-- the four setters
unfoldable pub customize : Attr → Attr
customize attr =
    let mappers = kept_if_refused attr (mr_attr_set_mapper_threads (some attr) 4) in
    let reducers = kept_if_refused mappers (mr_attr_set_reducer_threads (some mappers) 4) in
    let sized = kept_if_refused reducers (mr_attr_set_queue_size (some reducers) 100) in
    kept_if_refused sized (mr_attr_set_log_file (some sized) (some log_name))

-- what `mr_attr_destroy` answers is not looked at, and it makes no call
abbrev pub attr_gone : {W : Type 0} → Option (Unit {0}) → Handler W
attr_gone answer w = w

-- the fuel of the loops that the job runs in the main process
pub record Fuel : Type 0 where
  pub send : ℕ
  pub receive : ℕ
  pub print : ℕ

module _ {W : Type 0} ⦃os : Os W⦄ ⦃processes : Processes W⦄ (stdio : Stdio W) (usage : Usage W)
    (fuel : Fuel) (mapper_main reducer_main : Mr → LogFile → Io W (Unit {0})) where
  open stdio use {printf, perror}

  -- behind mr_create
  unfoldable pub run_job : Mr → Attr → (input_path output_path : Bytes) → Io W (Unit {0})
  run_job mr attr input_path output_path =
      do_then stdio
        (printf "Starting MapReduce on '%s' -> '%s'\n"
          (Arg.bytes input_path ∷ Arg.bytes output_path ∷ []))
        (do
          syscall_exit
              (mr_start fuel.send fuel.receive (mapper_main mr) (reducer_main mr) (some mr)
                (some input_path) (some output_path))
              (perror "mr_start"
                then_do mr_destroy (some mr)
                then_do attr_gone (mr_attr_destroy (some attr)))
          do_then stdio (printf "MapReduce finished successfully.\n" [])
              (print_results stdio fuel.print output_path)
          λ w. pure tt (attr_gone (mr_attr_destroy (some attr)) (mr_destroy (some mr) w)))

  -- with the addresses of the two functions
  unfoldable pub count_words :
      (stale_attr : Attr)
      → (word_count_mapper word_count_reducer : ℕ) → (input_path output_path : Bytes)
      → Io W (Unit {0})
  count_words stale_attr word_count_mapper word_count_reducer input_path output_path = do
    attr ← syscall_exit (need (mr_attr_init (some stale_attr))) (perror "mr_attr_init")
    mr ←
        syscall_exit (mr_create (some (customize attr)) word_count_mapper word_count_reducer 0)
          (perror "mr_create" then_do attr_gone (mr_attr_destroy (some (customize attr))))
    run_job mr (customize attr) input_path output_path

  -- `argv` has `argc` strings; without any the name of the program is a null pointer
  unfoldable pub main :
      (stale_attr : Attr)
      → (word_count_mapper word_count_reducer : ℕ) → (argv : List Bytes) → Io W (Unit {0})
  main stale_attr word_count_mapper word_count_reducer [] = λ w. (halt Stop.undefined, w)
  main stale_attr word_count_mapper word_count_reducer (program ∷ input_path ∷ output_path ∷ more) =
      count_words stale_attr word_count_mapper word_count_reducer input_path output_path
  main stale_attr word_count_mapper word_count_reducer (program ∷ few) =
      do_then stdio
        (usage.eprintf "Usage: %s <input_path> <output_path>\n" (Arg.bytes program ∷ [])) failed
