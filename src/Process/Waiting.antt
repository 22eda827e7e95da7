-- ===== src/Process/Waiting.antt =====
-- The main process of src/core.c and the ends of its children.
use Prim.Native.String.{String}
use mr_lib.Common.{ℕ, Bytes, Option, none, some, List, [], ◌∷◌}
use mr_lib.Os.{Arg, Os}
use mr_lib.Os.Io.{
  Io, Outcome, ok, fail, halt, Stop, after, Handler, recover, no_handler, ◌then_do◌, syscall_ret,
  need, ◌>>=◌, ignore,
}
use mr_lib.Os.Steady.{Frame, Settles, done, refused, Settles-Later}
use mr_lib.Log.{LogFile, mr_log}
use mr_lib.Log.Steady.{mr_log-Steady}
use mr_lib.Process.{Pipe, Status, Processes}
use mr_lib.Process.Calls
use mr_lib.Process.Calls.{ask, let_go, let_all_go, kill, reap}
use mr_lib.Process.Spawn.{Pipes, both_of}
use mr_lib.Process.Main.{
  Pids, error, log_status, wait_for_process, stop_mapper, stop_both, close_unused, exchange,
  wait_for_both, serve,
}
use mr_lib.Os as System
use mr_lib.Process as Posix

-- `Waited pid w`: by the world `w`, `waitpid` has been called for this child. No call takes that back.
pub record Children {W : Type 0} (os : Os W) (processes : Processes W) : Type 1 where
  pub Waited : ℕ → W → Type 0
  pub waits : (pid : ℕ) (w : W) → Waited pid (processes.sys (Posix.waitpid pid) w).1
  pub stays_os : (pid : ℕ) (r : System.Request) (w : W) → Waited pid w → Waited pid (os.sys r w).1
  pub stays :
      (pid : ℕ) (r : Posix.Request) (w : W) → Waited pid w → Waited pid (processes.sys r w).1

-- How code ends: with a result in a world as stated, with -1 in a world as stated, or not at all.
pub data Answers {A W : Type 0} (F : W → Type 0) (Q : A → W → Type 0) : Outcome A × W → Type 0 where
  result : {a : A} {w : W} → Q a w → Answers F Q (ok a, w)
  refusal : {w : W} → F w → Answers F Q (fail, w)
  stop : {r : Stop} {w : W} → Answers F Q (halt r, w)

module _ {A W : Type 0} {F : W → Type 0} {P : A → W → Type 0} where
  pub Answers-bind :
      {B : Type 0} {Q : B → W → Type 0} {o : Outcome A × W} {f : A → W → Outcome B × W}
      → Answers F P o
      → ((a : A) (w : W) → P a w → Answers F Q (f a w))
      → Answers F Q (after o f)
  Answers-bind (result p) next = next _ _ p
  Answers-bind (refusal e) next = refusal e
  Answers-bind stop next = stop

  -- a handler that brings about `G`, whatever it starts from
  pub Answers-handle :
      {G : W → Type 0} {o : Outcome A × W} (h : Handler W)
      → ((w : W) → F w → G (h w))
      → Answers F P o
      → Answers G P (recover o h)
  Answers-handle h brings (result p) = result p
  Answers-handle h brings (refusal e) = refusal (brings _ e)
  Answers-handle h brings stop = stop

-- any code at all
pub anything : {A W : Type 0} (o : Outcome A × W) → Answers (λ _. Unit {0}) (λ _ _. Unit {0}) o
anything (ok a, w) = result tt
anything (fail, w) = refusal tt
anything (halt r, w) = stop

module _ {W : Type 0} ⦃os : Os W⦄ ⦃processes : Processes W⦄ (children : Children os processes) where
  open children use {Waited, waits, stays_os, stays}

  let_all_go-Waited :
      (pid : ℕ) (fds : List ℕ) (w : W) → Waited pid w → Waited pid (let_all_go fds w)
  unfolding let_all_go let_go
  let_all_go-Waited pid [] w h = h
  let_all_go-Waited pid (fd ∷ fds) w h =
      let_all_go-Waited pid fds _ (stays pid (Posix.close fd) w h)

  let_go-Waited : (pid fd : ℕ) (w : W) → Waited pid w → Waited pid (let_go fd w)
  unfolding let_go
  let_go-Waited pid fd w h = stays pid (Posix.close fd) w h

  stop_mapper-Waited : (pid : ℕ) (w : W) → Waited pid (stop_mapper pid w)
  unfolding stop_mapper reap
  stop_mapper-Waited pid w = waits pid _

  -- both children of a job
  abbrev pub BothWaited : Pids → W → Type 0
  BothWaited pids w = Waited pids.mapper_pid w × Waited pids.reducer_pid w

  stop_both-Waited : (pids : Pids) (w : W) → BothWaited pids (stop_both pids w)
  unfolding stop_both reap
  stop_both-Waited pids w = (
    stays pids.mapper_pid (Posix.waitpid pids.reducer_pid) _ (waits pids.mapper_pid _),
    waits pids.reducer_pid _,
  )

  stop_both-closed :
      (pids : Pids) (fds : List ℕ) (w : W) → BothWaited pids (let_all_go fds (stop_both pids w))
  stop_both-closed pids fds w =
      let (m, r) = stop_both-Waited pids w in
      (let_all_go-Waited pids.mapper_pid fds _ m, let_all_go-Waited pids.reducer_pid fds _ r)

  -- a failure whose handler stops both, and closes some descriptors
  stopping :
      {A : Type 0} (pids : Pids) (m : Io W A) (h : Handler W) (fds : List ℕ) (w : W)
      → Answers
          (BothWaited pids)
          (λ _ _. Unit {0})
          (syscall_ret m (h then_do stop_both pids then_do let_all_go fds) w)
  unfolding syscall_ret
  stopping pids m h fds w =
      Answers-handle _ (λ v _. stop_both-closed pids fds (h v)) (anything (m w))

  -- of both, the mapper
  weaken :
      {A : Type 0} {pids : Pids} {Q : A → W → Type 0} {o : Outcome A × W}
      → Answers (BothWaited pids) Q o
      → Answers (Waited pids.mapper_pid) Q o
  weaken (result q) = result q
  weaken (refusal b) = refusal b.0
  weaken stop = stop

  -- Whatever goes wrong while the input is sent and the output received, the main process returns -1
  -- only when it has called `waitpid` for both children.
  pub exchange-Waited :
      (send_fuel receive_fuel : ℕ) (log_file : LogFile) (p : Pipes) (pids : Pids)
      (input_path output_path : Bytes) (w : W)
      → Answers
          (BothWaited pids)
          (λ _ _. Unit {0})
          (exchange send_fuel receive_fuel log_file p pids input_path output_path w)
  unfolding exchange ◌>>=◌ let_all_go
  exchange-Waited send_fuel receive_fuel log_file p pids input_path output_path w =
      let sending = p.main_to_mapper.write_end in
      let receiving = p.reducer_to_main.read_end in
      Answers-bind (stopping pids _ (λ v. v) (sending ∷ receiving ∷ []) w) λ _ w₁ _.
        Answers-bind (stopping pids _ _ (sending ∷ receiving ∷ []) w₁) λ _ w₂ _.
          Answers-bind (stopping pids _ _ (receiving ∷ []) w₂) λ _ w₃ _.
            Answers-bind (stopping pids _ _ (receiving ∷ []) w₃) λ _ w₄ _. stopping pids _ _ [] w₄

  -- what has been waited for stays so over a message
  abbrev waited_frame : ℕ → Frame os
  waited_frame pid = record {
    Later = λ u v. Waited pid u → Waited pid v;
    now = λ w h. h;
    chain = λ a b h. b (a h);
    called = λ r _ w. stays_os pid r w;
  }

  Settles-Answers :
      {A : Type 0} {w : W} {pid : ℕ} {o : Outcome A × W}
      → Waited pid w
      → Settles (waited_frame pid) w o
      → Answers (Waited pid) (λ _. Waited pid) o
  Settles-Answers h (done k) = result (k h)
  Settles-Answers h (refused k) = refusal (k h)

  log_status-Waited :
      (log_file : LogFile) (name : String) (status : Status) (pid : ℕ) (w : W)
      → Waited pid w
      → Answers (Waited pid) (λ _. Waited pid) (log_status log_file name status w)
  unfolding log_status syscall_ret
  log_status-Waited log_file name (Status.exited code) pid w h =
      Answers-handle no_handler (λ _ k. k)
        (Settles-Answers h ((mr_log-Steady (waited_frame pid) log_file _ _ _ _ _).at w))
  log_status-Waited log_file name (Status.signaled signal) pid w h =
      Answers-handle no_handler (λ _ k. k)
        (Settles-Answers h ((mr_log-Steady (waited_frame pid) log_file _ _ _ _ _).at w))
  log_status-Waited log_file name Status.other pid w h =
      Answers-handle no_handler (λ _ k. k)
        (Settles-Answers h ((mr_log-Steady (waited_frame pid) log_file _ _ _ _ _).at w))

  message-Waited :
      (pid : ℕ) (log_file : LogFile) (level pname tname format : String) (args : List Arg) (w : W)
      → Waited pid w
      → Waited pid (mr_log log_file level pname tname format args w).1
  message-Waited pid log_file level pname tname format args w h =
      Settles-Later (waited_frame pid)
        ((mr_log-Steady (waited_frame pid) log_file level pname tname format args).at w) h

  need-Answers :
      {A : Type 0} (x : Option A) (w : W) {P : W → Type 0} → P w → Answers P (λ _. P) (need x w)
  unfolding need
  need-Answers none w p = refusal p
  need-Answers (some a) w p = result p

  -- `kept` is a child that has been waited for before
  wait_for_process-Waited :
      (log_file : LogFile) (name : String) (pid : ℕ) (w : W)
      → Answers (Waited pid) (λ _. Waited pid) (wait_for_process log_file name pid w)
  unfolding wait_for_process ◌>>=◌ syscall_ret Calls.waitpid ask ignore
  wait_for_process-Waited log_file name pid w =
      Answers-bind
        (Answers-handle _ (λ v h. message-Waited pid log_file _ _ _ _ _ v h)
          (need-Answers (processes.sys (Posix.waitpid pid) w).0 _ {P = Waited pid} (waits pid w)))
        λ status v h. log_status-Waited log_file name status pid v h

  wait_for_process-keeps :
      (log_file : LogFile) (name : String) (pid kept : ℕ) (w : W)
      → Waited kept w
      → Answers (Waited kept) (λ _. Waited kept) (wait_for_process log_file name pid w)
  unfolding wait_for_process ◌>>=◌ syscall_ret Calls.waitpid ask ignore
  wait_for_process-keeps log_file name pid kept w before =
      Answers-bind
        (Answers-handle _ (λ v h. message-Waited kept log_file _ _ _ _ _ v h)
          (need-Answers (processes.sys (Posix.waitpid pid) w).0 _ {P = Waited kept}
            (stays kept (Posix.waitpid pid) w before)))
        λ status v h. log_status-Waited log_file name status kept v h

  both :
      {A : Type 0} {P Q : W → Type 0} {o : Outcome A × W}
      → Answers P (λ _. P) o
      → Answers Q (λ _. Q) o
      → Answers (λ w. P w × Q w) (λ _ w. P w × Q w) o
  both (result p) (result q) = result (p, q)
  both (refusal p) (refusal q) = refusal (p, q)
  both stop q = stop

  wait_for_both-Waited :
      (log_file : LogFile) (pids : Pids) (w : W)
      → Answers (BothWaited pids) (λ _. BothWaited pids) (wait_for_both log_file pids w)
  unfolding wait_for_both ◌>>=◌ syscall_ret error ignore reap kill
  wait_for_both-Waited log_file pids w =
      Answers-bind
        (Answers-handle _
          (λ v h.
            let said = message-Waited pids.mapper_pid log_file _ _ _ _ _ v h in
            (
              stays pids.mapper_pid (Posix.waitpid pids.reducer_pid) _
                  (stays pids.mapper_pid (Posix.kill pids.reducer_pid) _ said),
              waits pids.reducer_pid _,
            ))
          (wait_for_process-Waited log_file "Mapper" pids.mapper_pid w))
        λ _ w₁ h.
          Answers-handle _
            (λ v (m, r). (
              message-Waited pids.mapper_pid log_file _ _ _ _ _ v m,
              message-Waited pids.reducer_pid log_file _ _ _ _ _ v r,
            ))
            (both (wait_for_process-keeps log_file "Reducer" pids.reducer_pid pids.mapper_pid w₁ h)
              (wait_for_process-Waited log_file "Reducer" pids.reducer_pid w₁))

  close_unused-Waited :
      (log_file : LogFile) (p : Pipes) (pids : Pids) (w : W)
      → Answers (Waited pids.mapper_pid) (λ _ _. Unit {0}) (close_unused log_file p pids w)
  unfolding close_unused ◌>>=◌ syscall_ret
  close_unused-Waited log_file p pids w =
      let fds = p.main_to_mapper.write_end in
      Answers-bind
        (Answers-handle _
          (λ v _.
            let_all_go-Waited pids.mapper_pid (both_of p.mapper_to_reducer p.reducer_to_main) _
              (let_go-Waited pids.mapper_pid fds _ (stop_mapper-Waited pids.mapper_pid v)))
          (anything (Calls.close p.main_to_mapper.read_end w)))
        λ _ w₁ _.
          Answers-bind
            (weaken (
              stopping pids (Calls.close p.mapper_to_reducer.read_end) (λ v. v)
                (fds ∷ p.mapper_to_reducer.write_end ∷ p.reducer_to_main.read_end
                  ∷ p.reducer_to_main.write_end ∷ [])
                w₁))
            λ _ w₂ _.
              Answers-bind
                (weaken (
                  stopping pids (Calls.close p.mapper_to_reducer.write_end) (λ v. v)
                    (fds ∷ p.reducer_to_main.read_end ∷ p.reducer_to_main.write_end ∷ []) w₂))
                λ _ w₃ _.
                  Answers-handle _
                    (λ v _.
                      let_all_go-Waited pids.mapper_pid
                        (both_of p.mapper_to_reducer p.reducer_to_main) _
                        (let_go-Waited pids.mapper_pid fds _ (stop_both-Waited pids v).0))
                    (anything (Calls.close p.reducer_to_main.write_end w₃))

  -- Once both children have been forked, the main process returns, with 0 or with -1, only when it has
  -- called `waitpid` for the mapper; and it returns 0 only when it has called it for both.
  pub serve-Waited :
      (send_fuel receive_fuel : ℕ) (log_file : LogFile) (p : Pipes) (pids : Pids)
      (input_path output_path : Bytes) (w : W)
      → Answers
          (Waited pids.mapper_pid)
          (λ _. BothWaited pids)
          (serve send_fuel receive_fuel log_file p pids input_path output_path w)
  unfolding serve ◌>>=◌
  serve-Waited send_fuel receive_fuel log_file p pids input_path output_path w =
      Answers-bind (close_unused-Waited log_file p pids w) λ _ w₁ _.
        Answers-bind
          (weaken
            (exchange-Waited send_fuel receive_fuel log_file p pids input_path output_path w₁))
          λ _ w₂ _. weaken (wait_for_both-Waited log_file pids w₂)
