-- ===== src/Emit/Laws.antt =====
-- What an emitted pair or result adds to the pipe.
use Prim.Native.String.{String}
use mr_lib.Common.{◌+◌, ◌%◌, ◌≡◌, size_limit, ◌++◌, Bytes}
use mr_lib.Os.{Os}
use mr_lib.Os.Io.{Io}
use mr_lib.Os.Lawful.{Lawful, Kept}
use mr_lib.Os.Yields.{Yields}
use mr_lib.Emit.{Counted, Mutex}

module _ {W : Type 0} ⦃os : Os W⦄ (law : Lawful os) (mutex : Mutex W)
    (keeps : (w : W) → Kept law w (mutex.unlock w).1) where
  open law use {Fault, sent}

  -- `bs` stands behind what had been sent when the mutex was taken, and has been counted
  pub record Emitted (bs : Bytes) (s s' : Counted W) : Type 0 where
    pub added : sent 1 s'.1 ≡ sent 1 (mutex.lock s).1.1 ++ bs
    pub counted_once : s'.0 ≡ ((mutex.lock s).1.0 + 1) % size_limit
