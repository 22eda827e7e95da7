-- ===== src/Emit/Alone.antt =====
-- The emit functions of a worker when no other runs, and the world with the counter beside it.
use Prim.Native.String.{String}
use mathlib.Core.Path.{subst}
use mr_lib.Common.{
  ℕ, ◌≡◌, refl, ap, sym, ◌∙◌, true, [], ◌++◌, append-nil, append_assoc, length, drop, drop-append,
  Bytes,
}
use mr_lib.Os.{Request, Os}
use mr_lib.Os.Io.{Io, Outcome, pure, ◌>>=◌, Handler, syscall_ret, syscall_exit, free}
use mr_lib.Os.Lawful.{Lawful}
use mr_lib.Os.Quiet.{Quiet}
use mr_lib.Os.Yields
use mr_lib.Os.Yields.{Yields, returns, fails}
use mr_lib.Log.{LogFile, c_string}
use mr_lib.Protocol.Stream.Laws.{Wrote}
use mr_lib.Protocol.Pair.Laws.{pair_bytes, send_pair_to_reducer_fd-Wrote}
use mr_lib.Protocol.Results.Laws.{result_bytes, send_result_to_main_fd-Wrote}
use mr_lib.Emit.{Counted, Mutex, release, emit, mapper_emit, reducer_emit, counted}

-- no other worker has the mutex
pub record IsLone {W : Type 0} (mutex : Mutex W) : Type 0 where
  pub lock : (s : Counted W) → mutex.lock s ≡ (true, s)
  pub unlock : (w : W) → mutex.unlock w ≡ (true, w)

-- calls leave the counter alone
instance abbrev pub beside_count : {W : Type 0} ⦃os : Os W⦄ → Os (Counted W)
beside_count ⦃os⦄ = record {
  sys = λ r s. ((os.sys r s.1).0, (s.0, (os.sys r s.1).1));
  stale = λ s n. os.stale s.1 n;
}

abbrev pub beside_law :
    {W : Type 0} ⦃os : Os W⦄ → Lawful os → Lawful (beside_count {W = W} ⦃os = os⦄)
beside_law law = record {
  Fault = law.Fault;
  pending = λ fd s. law.pending fd s.1;
  sent = λ fd s. law.sent fd s.1;
  files = λ s. law.files s.1;
  fault = λ r s. law.fault r s.1;
  read_some = λ fd n s. law.read_some fd n s.1;
  read_sent = λ fd n to s. law.read_sent fd n to s.1;
  read_files = λ fd n s. law.read_files fd n s.1;
  write_some = λ fd bs s. law.write_some fd bs s.1;
  write_pending = λ fd from bs s. law.write_pending fd from bs s.1;
  write_files = λ fd bs s. law.write_files fd bs s.1;
  stale_size = λ s. law.stale_size s.1;
  malloc_some = λ size s. law.malloc_some size s.1;
  frame = λ r h s. law.frame r h s.1;
  frame_files = λ r h s. law.frame_files r h s.1;
  stream_frame = λ r h s. law.stream_frame r h s.1;
  stat_some = λ path s. law.stat_some path s.1;
  scandir_some = λ path s. law.scandir_some path s.1;
  fopen_read = λ path s. law.fopen_read path s.1;
  fopen_write = λ path s. law.fopen_write path s.1;
  getline_some = λ f buffer s. law.getline_some f buffer s.1;
  getline_none = λ f buffer s. law.getline_none f buffer s.1;
  ferror_broken = λ f s. law.ferror_broken f s.1;
  fwrite_all = λ f size count bs s. law.fwrite_all f size count bs s.1;
}

-- what has been sent since
abbrev pub since : (before after : Bytes) → Bytes
since before after = drop (length before) after

pub since-added : (before bs after : Bytes) → after ≡ before ++ bs → since before after ≡ bs
since-added before bs after e = rw e (drop-append (length before) before bs refl)

module _ {W : Type 0} ⦃os : Os W⦄ (law : Lawful os) where
  open law use {Fault, sent}

  -- `m` puts `bs` behind what the standard output has been sent, or a call fails
  pub record Sends {A : Type 0} (bs : Bytes) (m : Io W A) : Type 0 where
    pub at : (w : W) → Yields (λ _ w'. sent 1 w' ≡ sent 1 w ++ bs) Fault (m w)

  pub Sends-pure : {A : Type 0} (a : A) → Sends [] (pure a)
  unfolding pure
  Sends-pure a = record { at = λ w. returns (sym (append-nil (sent 1 w))) }

  pub Sends-bind :
      {A B : Type 0} {x y : Bytes} {m : Io W A} {f : A → Io W B}
      → Sends x m
      → ((a : A) → Sends y (f a))
      → Sends (x ++ y) (m >>= f)
  unfolding ◌>>=◌
  Sends-bind {A} {B} {x} {y} first next = record {
    at = λ w. Yields.bind (first.at w) λ a u e.
        Yields.mono ((next a).at u)
          λ b v d. d ∙ ap (λ (z : Bytes). z ++ y) e ∙ append_assoc (sent 1 w) x y;
  }

  pub Sends-handle :
      {A : Type 0} {bs : Bytes} {m : Io W A} (h : Handler W)
      → Sends bs m
      → Sends bs (syscall_ret m h)
  unfolding syscall_ret
  Sends-handle h sends = record { at = λ w. Yields.handle h (sends.at w) }

  pub Sends-exit :
      {A : Type 0} {bs : Bytes} {m : Io W A} (h : Handler W)
      → Sends bs m
      → Sends bs (syscall_exit m h)
  unfolding syscall_exit
  Sends-exit h sends = record { at = λ w. Yields.handle h (sends.at w) }

  pub Sends-Quiet : {A : Type 0} {m : Io W A} → Quiet law m → Sends [] m
  Sends-Quiet quiet = record {
    at = λ w. Yields.mono (quiet.at w) λ a w' k. k.sent_kept 1 ∙ sym (append-nil (sent 1 w));
  }

  pub Sends-as : {A : Type 0} {x y : Bytes} {m : Io W A} → x ≡ y → Sends x m → Sends y m
  Sends-as {A} {x} {y} {m} same sends = subst (λ (z : Bytes). Sends z m) same sends

  pub Sends-kept :
      (h : Handler W) → ((w : W) → sent 1 (h w) ≡ sent 1 w) → Sends [] (λ (w : W). pure tt (h w))
  unfolding pure
  Sends-kept h same = record { at = λ w. returns (same w ∙ sym (append-nil (sent 1 w))) }

  pub free-sent : (address : ℕ) (w : W) → sent 1 (free address w) ≡ sent 1 w
  unfolding free
  free-sent address w = (law.frame (Request.free address) refl w 1).1

module _ {W : Type 0} ⦃os : Os W⦄ (law : Lawful os) (mutex : Mutex W) (lone : IsLone mutex) where
  open law use {Fault, sent}

  emit-Sends :
      (pname tname : String) (log_file : LogFile) (send : Io W (Unit {0})) (bs : Bytes)
      → ((w : W) → Yields (λ _ w'. Wrote law 1 bs w w') Fault (send w))
      → Sends (beside_law law) bs (emit mutex pname tname log_file send)
  unfolding emit release
  emit-Sends pname tname log_file send bs writes = record {
    at = λ s. rw (lone.lock s) (rw (lone.unlock (send s.1).1) (after_send s (writes s.1)));
  }
    where
      after_send :
          (s : Counted W) {o : Outcome (Unit {0}) × W}
          → Yields (λ _ w'. Wrote law 1 bs s.1 w') Fault o
          → Yields
              (λ _ (s' : Counted W). sent 1 s'.1 ≡ sent 1 s.1 ++ bs)
              Fault
              (o.0, (counted o.0 s.0, o.1))
      after_send s (returns p) = returns p.added
      after_send s (fails e) = fails e

  pub mapper_emit-Sends :
      (log_file : LogFile) (tname : String) (token value : Bytes)
      → Sends
          (beside_law law)
          (pair_bytes (c_string token) value)
          (mapper_emit mutex log_file tname token value)
  unfolding mapper_emit
  mapper_emit-Sends log_file tname token value =
      emit-Sends "Mapper" tname log_file _ _
        λ w. send_pair_to_reducer_fd-Wrote law log_file 1 token value w

  pub reducer_emit-Sends :
      (log_file : LogFile) (tname : String) (token result : Bytes)
      → Sends
          (beside_law law)
          (result_bytes (c_string token) result)
          (reducer_emit mutex log_file tname token result)
  unfolding reducer_emit
  reducer_emit-Sends log_file tname token result =
      emit-Sends "Reducer" tname log_file _ _
        λ w. send_result_to_main_fd-Wrote law log_file 1 token result w
