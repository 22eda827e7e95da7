-- ===== src/Os/Calls.antt =====
-- The calls whose failure the code tests, as code that fails then. `fwrite` succeeds if it took all.
use Prim.Native.String.{String}
use mr_lib.Common.{ℕ, Bool, List, Bytes, ◌==◌}
use mr_lib.Os.{Arg, NameList, Request, Os}
use mr_lib.Os.Io.{Io, ◌>>=◌, need, succeed, call}

module _ {W : Type 0} ⦃os : Os W⦄ where
  unfoldable pub read : (fd count : ℕ) → Io W Bytes
  read fd count = call (Request.read fd count) >>= need

  unfoldable pub write : (fd : ℕ) (bs : Bytes) → Io W ℕ
  write fd bs = call (Request.write fd bs) >>= need

  unfoldable pub malloc : (size : ℕ) → Io W ℕ
  malloc size = call (Request.malloc size) >>= need

  unfoldable pub realloc : (address size : ℕ) → Io W ℕ
  realloc address size = call (Request.realloc address size) >>= need

  unfoldable pub strdup : (s : Bytes) → Io W ℕ
  strdup s = call (Request.strdup s) >>= need

  unfoldable pub stat : (path : Bytes) → Io W Bool
  stat path = call (Request.stat path) >>= need

  unfoldable pub scandir : (path : Bytes) → Io W NameList
  scandir path = call (Request.scandir path) >>= need

  unfoldable pub fopen : (path : Bytes) (mode : String) → Io W ℕ
  fopen path mode = call (Request.fopen path mode) >>= need

  unfoldable pub sem_open : (name : String) → Io W ℕ
  sem_open name = call (Request.sem_open name) >>= need

  unfoldable pub time : Io W ℕ
  time = call Request.time >>= need

  unfoldable pub fprintf : (file : ℕ) (format : String) (args : List Arg) → Io W (Unit {0})
  fprintf file format args = call (Request.fprintf file format args) >>= succeed

  unfoldable pub fputc : (file c : ℕ) → Io W (Unit {0})
  fputc file c = call (Request.fputc file c) >>= succeed

  unfoldable pub fclose : (file : ℕ) → Io W (Unit {0})
  fclose file = call (Request.fclose file) >>= succeed

  unfoldable pub sem_wait : (sem : ℕ) → Io W (Unit {0})
  sem_wait sem = call (Request.sem_wait sem) >>= succeed

  unfoldable pub sem_post : (sem : ℕ) → Io W (Unit {0})
  sem_post sem = call (Request.sem_post sem) >>= succeed

  unfoldable pub sem_close : (sem : ℕ) → Io W (Unit {0})
  sem_close sem = call (Request.sem_close sem) >>= succeed

  unfoldable pub sem_unlink : (name : String) → Io W (Unit {0})
  sem_unlink name = call (Request.sem_unlink name) >>= succeed

  unfoldable pub fwrite : (file item_size count : ℕ) (bs : Bytes) → Io W (Unit {0})
  fwrite file item_size count bs = do
    n ← call (Request.fwrite file item_size count bs)
    succeed (n == count)
