-- ===== src/Process/Calls.antt =====
-- The calls of src/core.c on processes and pipes, as code that fails where the call does.
use mr_lib.Common.{ℕ, List, [], ◌∷◌}
use mr_lib.Os.Io.{Io, ok, need, succeed, ◌>>=◌, Handler}
use mr_lib.Process.{Request, Reply, Status, Pipe, Processes}

module _ {W : Type 0} ⦃processes : Processes W⦄ where
  unfoldable pub ask : (r : Request) → Io W (Reply r)
  ask r w = (ok (processes.sys r w).0, (processes.sys r w).1)

  unfoldable pub fork : Io W ℕ
  fork = ask Request.fork >>= need

  unfoldable pub pipe : Io W Pipe
  pipe = ask Request.pipe >>= need

  unfoldable pub close : ℕ → Io W (Unit {0})
  close fd = ask (Request.close fd) >>= succeed

  unfoldable pub dup2 : (from to : ℕ) → Io W (Unit {0})
  dup2 from to = ask (Request.dup2 from to) >>= succeed

  unfoldable pub waitpid : ℕ → Io W Status
  waitpid pid = ask (Request.waitpid pid) >>= need

  -- the same where the result is not looked at
  unfoldable pub let_go : ℕ → Handler W
  let_go fd w = (processes.sys (Request.close fd) w).1

  unfoldable pub kill : ℕ → Handler W
  kill pid w = (processes.sys (Request.kill pid) w).1

  unfoldable pub reap : ℕ → Handler W
  reap pid w = (processes.sys (Request.waitpid pid) w).1

  -- `close` of some descriptors, in this order
  unfoldable pub let_all_go : List ℕ → Handler W
  let_all_go [] w = w
  let_all_go (fd ∷ fds) w = let_all_go fds (let_go fd w)
