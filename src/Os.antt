-- ===== src/Os.antt =====
-- The calls that libmr makes of the C library and of POSIX. They are not code of the repository, so
-- what they answer is a parameter: `sys` answers a request and moves the world on. `stale` is what
-- an object holds before anything is written to it (a local header, a block from `malloc`).
pub mod Io
pub mod Calls
pub mod Yields
pub mod Lawful
pub mod Quiet
pub mod Steady
use Prim.Native.String.{String}
use mr_lib.Common.{ℕ, Bool, Option, List, Bytes}

-- An argument of a `printf` format.
pub data Arg : Type 0 where
  text : String → Arg
  bytes : Bytes → Arg
  num : ℕ → Arg

-- One constructor for each function that is called; an address or a handle is a number.
pub data Request : Type 0 where
  read : (fd count : ℕ) → Request
  write : (fd : ℕ) → Bytes → Request
  malloc : (size : ℕ) → Request
  realloc : (address size : ℕ) → Request
  strdup : Bytes → Request
  free : (address : ℕ) → Request
  stat : (path : Bytes) → Request
  scandir : (path : Bytes) → Request
  fopen : (path : Bytes) → (mode : String) → Request
  getline : (file buffer : ℕ) → Request
  ferror : (file : ℕ) → Request
  fwrite : (file item_size count : ℕ) → Bytes → Request
  fprintf : (file : ℕ) → (format : String) → List Arg → Request
  fputc : (file c : ℕ) → Request
  fflush : (file : ℕ) → Request
  fclose : (file : ℕ) → Request
  sem_open : (name : String) → Request
  sem_wait : (sem : ℕ) → Request
  sem_post : (sem : ℕ) → Request
  sem_close : (sem : ℕ) → Request
  sem_unlink : (name : String) → Request
  time : Request
  strftime : (now : ℕ) → Request
  getpid : Request

-- What `scandir` hands back: the array, and the address and the name of each entry.
pub record NameList : Type 0 where
  pub table : ℕ
  pub entries : List (ℕ × Bytes)

-- `none` and `false` are the documented failure (-1, NULL, EOF or a negative count). `stat` says
-- whether the path is a directory. `getline` says where its buffer is now, and what it read.
abbrev pub Reply : Request → Type 0
Reply (Request.read _ _) = Option Bytes
Reply (Request.write _ _) = Option ℕ
Reply (Request.malloc _) = Option ℕ
Reply (Request.realloc _ _) = Option ℕ
Reply (Request.strdup _) = Option ℕ
Reply (Request.free _) = Unit {0}
Reply (Request.stat _) = Option Bool
Reply (Request.scandir _) = Option NameList
Reply (Request.fopen _ _) = Option ℕ
Reply (Request.getline _ _) = ℕ × Option Bytes
Reply (Request.ferror _) = Bool
Reply (Request.fwrite _ _ _ _) = ℕ
Reply (Request.sem_open _) = Option ℕ
Reply Request.time = Option ℕ
Reply (Request.strftime _) = Option Bytes
Reply Request.getpid = ℕ
Reply _ = Bool

pub record Os (W : Type 0) : Type 0 where
  pub sys : (r : Request) → W → Reply r × W
  pub stale : W → ℕ → Bytes
