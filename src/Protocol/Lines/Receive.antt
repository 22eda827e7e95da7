-- ===== src/Protocol/Lines/Receive.antt =====
-- receive_line_from_main_fd of src/protocol.c, call by call.
use mr_lib.Common.{
  ℕ, zero, suc, ◌+◌, ◌%◌, ◌≤◌, ◌<◌, ◌≡◌, ◌≢◌, refl, ap, ◌∙◌, Bool, true, false, Option, none, some,
  List, [], ◌∷◌, ◌++◌, append_assoc, Bytes, length, ◌==◌, size_limit, arith, if◌then◌else◌,
}
use mathlib.Core.Bool.{not}
use mr_lib.Os.{Request, Os}
use mr_lib.Os.Io.{Io, Outcome, pure, ◌>>=◌, syscall_ret, assert, free}
use mr_lib.Os.Lawful.{Lawful, frame-Kept}
use mr_lib.Os.Yields
use mr_lib.Os.Yields.{Yields, returns, fails}
use mr_lib.Log.{LogFile}
use mr_lib.Protocol.Headers.{
  FileNameHeader, LineHeader, file_name_header_of, line_header_bytes, line_header_of,
  length-file_name_header_bytes, length-line_header_bytes, file_name_header_of-bytes,
  line_header_of-bytes, read_object, read_object-whole, read_object-end,
}
use mr_lib.Protocol.Pair.Laws.{allocate-Kept, read_some-Read}
use mr_lib.Protocol.Lines.{
  MainReceiver, FileLine, main_receiver_destroy, open_file, take_line, open_if_finished,
  line_or_end, receive_line_from_main_fd,
}
use mr_lib.Protocol.Lines.Laws.{
  name_header, line_header, LinesOn, end, line, FilesOn, nil, file, Entry, numbered, all_lines,
  IsLine, Within, Expects, between, within,
}

module _ {W : Type 0} ⦃os : Os W⦄ (law : Lawful os) (log_file : LogFile) (fd : ℕ) where
  open law use {Fault, pending}

  destroy-Kept :
      (r : MainReceiver) (w : W)
      → Yields (λ _ w'. pending fd w' ≡ pending fd w) Fault (main_receiver_destroy r w)
  unfolding main_receiver_destroy pure free
  destroy-Kept r w =
      returns ((frame-Kept law (Request.free r.current_file_name.address) refl w).pending_kept fd)

  open_file-Within :
      (r : MainReceiver) (name rest : Bytes) (w : W)
      → length name + 1 < size_limit
      → pending fd w ≡ name_header name ++ (name ++ rest)
      → Yields
          (λ (r', live) w'. (live ≡ true) × Within r' name 1 × (pending fd w' ≡ rest))
          Fault
          (open_file log_file fd r w)
  unfolding open_file ◌>>=◌ pure syscall_ret
  open_file-Within r name rest w small front =
      let header : FileNameHeader = record { file_name_length = length name } in
      let size = length-file_name_header_bytes header in
      Yields.bind
        (Yields.handle _
          (read_object-whole law fd 8 (name_header name) (name ++ rest) w size front))
        λ o w₁ q. Yields.bind (destroy-Kept r w₁) λ r' w₂ d.
          let known : file_name_header_of o.1 ≡ header =
            ap file_name_header_of q.holds ∙ file_name_header_of-bytes header (omega arith) in
          let some_bytes : (o.0 == 0) ≡ false = ground (arith, q.count, size) in
          rw (some_bytes, known)
            (Yields.bind
              (allocate-Kept law ((length name + 1) % size_limit) 1 _ w₂ (λ _. omega arith))
              λ p w₃ k.
                Yields.bind
                  (Yields.handle _ (
                    read_object-whole law fd (length name) name rest w₃ refl
                      (k.pending_kept fd ∙ d ∙ q.left)))
                  λ t w₄ u. returns (
                    refl,
                    record {
                      unfinished = refl;
                      name_bytes = u.holds;
                      name_length = refl;
                      small = small;
                      number = refl;
                    },
                    u.left,
                  ))

  open_file-end :
      (r : MainReceiver) (w : W)
      → pending fd w ≡ []
      → Yields (λ (r', live) w'. live ≡ false) Fault (open_file log_file fd r w)
  unfolding open_file ◌>>=◌ pure syscall_ret
  open_file-end r w none_left =
      Yields.bind (Yields.handle _ (read_object-end law fd 8 w none_left)) λ o w₁ q.
        Yields.bind (destroy-Kept r w₁) λ r' w₂ d.
          let nothing : (o.0 == 0) ≡ true = ground (arith, q.0) in rw nothing (returns refl)

  -- the lines to come, after the first of them has been taken
  abbrev pub Next : ℕ → List Entry → MainReceiver × Option FileLine → W → Type 0
  Next k [] (r, x) w = x ≡ none
  Next k (e ∷ todo) (r, x) w =
      (l : FileLine) × (x ≡ some l)
      × IsLine e l
      × (j : ℕ) × (j ≤ k)
      × Expects r (pending fd w) j todo

  take_line-Next :
      (r : MainReceiver) (name l : Bytes) (n k : ℕ) (ls : List Bytes)
      (fs : List (Bytes × List Bytes)) (bs cs : Bytes) (w : W)
      → Within r name n
      → length l + 1 < size_limit
      → LinesOn ls bs
      → FilesOn fs cs
      → suc (length fs) ≤ k
      → pending fd w ≡ l ++ (bs ++ cs)
      → Yields
          (Next k (
            record { name = name; number = n; text = l }
            ∷ (numbered name ((n + 1) % size_limit) ls ++ all_lines fs)))
          Fault
          (take_line log_file fd r (length l) w)
  unfolding take_line ◌>>=◌ pure
  take_line-Next r name l n k ls fs bs cs w i small lines files room front =
      let copied : 0 < (r.current_file_name_len + 1) % size_limit =
        omega (arith, i.name_length, i.small) in
      Yields.bind (allocate-Kept law _ 1 _ w (λ _. copied)) λ p w₁ k₁.
        Yields.bind (allocate-Kept law ((length l + 1) % size_limit) 1 _ w₁ (λ _. omega arith))
          λ p' w₂ k₂.
            Yields.bind
              (read_some-Read law fd (length l) l (bs ++ cs) _ w₂ refl
                (k₂.pending_kept fd ∙ k₁.pending_kept fd ∙ front))
              λ text w₃ t. returns (
                _,
                refl,
                record {
                  file_name = i.name_bytes;
                  file_name_len = i.name_length;
                  line_number = i.number;
                  line = t.holds;
                  line_len = refl;
                },
                suc (length fs),
                room,
                within name _ ls fs bs cs _ _
                    (record {
                      unfinished = i.unfinished;
                      name_bytes = i.name_bytes;
                      name_length = i.name_length;
                      small = i.small;
                      number = ap (λ (x : ℕ). (x + 1) % size_limit) i.number;
                    })
                    lines files t.left refl refl,
              )

  module _ (fuel : ℕ) where
    -- what is known of the rounds that the fuel is left for
    abbrev Again : (MainReceiver → Io W (MainReceiver × Option FileLine)) → Type 0
    Again again =
        (r : MainReceiver) (k : ℕ) (todo : List Entry) (w : W)
        → Expects r (pending fd w) k todo
        → k < fuel
        → Yields (Next k todo) Fault (again r w)

    assert_some :
        {Q : Unit {0} → W → Type 0} (n : ℕ) (w : W)
        → n ≢ 0
        → Q tt w
        → Yields Q Fault (assert (not (n == 0)) w)
    unfolding assert
    assert_some n w h q = let e : (n == 0) ≡ false = ground arith in rw e (returns q)

    read_header :
        (header : LineHeader) (padding rest : Bytes) (w : W)
        → length padding ≡ 7
        → header.line_length < size_limit
        → pending fd w ≡ line_header_bytes header padding ++ rest
        → Yields
            (λ o w'. (o.0 ≢ 0) × (line_header_of o.1 ≡ header) × (pending fd w' ≡ rest))
            Fault
            (read_object fd 16 w)
    read_header header padding rest w seven small front =
        let size = length-line_header_bytes header padding seven in
        Yields.mono
          (read_object-whole law fd 16 (line_header_bytes header padding) rest w size front)
          λ o w' q. (
            omega (arith, q.count, size),
            ap line_header_of q.holds ∙ line_header_of-bytes header padding seven small,
            q.left,
          )

    Next-mono :
        (k k' : ℕ) (todo : List Entry) (x : MainReceiver × Option FileLine) (w : W)
        → k ≤ k'
        → Next k todo x w
        → Next k' todo x w
    Next-mono k k' [] x w le n = n
    Next-mono k k' (e ∷ todo) x w le (l, eq, is, j, small, more) = (l, eq, is, j, omega arith, more)

    line_or_end-Next :
        {ls : List Bytes} {bs : Bytes}
        (again : MainReceiver → Io W (MainReceiver × Option FileLine)) (r : MainReceiver)
        (name : Bytes) (n : ℕ) (fs : List (Bytes × List Bytes)) (cs : Bytes) (w : W)
        → Again again
        → Within r name n
        → LinesOn ls bs
        → FilesOn fs cs
        → length fs < fuel
        → pending fd w ≡ bs ++ cs
        → Yields
            (Next (suc (length fs)) (numbered name n ls ++ all_lines fs))
            Fault
            (line_or_end log_file fd again r w)
    unfolding line_or_end numbered ◌>>=◌ pure syscall_ret
    line_or_end-Next again r name n fs cs w ih i (end padding seven) files room front =
        Yields.bind (Yields.handle _ (read_header _ padding cs w seven (omega arith) front))
          λ o w₁ (some_bytes, known, left).
            Yields.bind (assert_some {Q = λ _ v. v ≡ w₁} o.0 w₁ some_bytes refl) λ _ w₂ same.
              rw (same, known)
                (Yields.mono
                  (ih (record r { file_finished = true }) (length fs) (all_lines fs) w₁
                    (between fs _ _ refl (rw left files) refl refl) room)
                  λ x v next. Next-mono _ _ (all_lines fs) x v (omega arith) next)
    line_or_end-Next again r name n fs cs w ih i (line {ls} {bs} padding l seven small lines) files
          room front =
        let e : pending fd w ≡ line_header l padding ++ (l ++ (bs ++ cs)) =
          front
          ∙ append_assoc (line_header l padding) (l ++ bs) cs
          ∙ ap (λ (x : Bytes). line_header l padding ++ x) (append_assoc l bs cs) in
        Yields.bind
          (Yields.handle _ (read_header _ padding (l ++ (bs ++ cs)) w seven (omega arith) e))
          λ o w₁ (some_bytes, known, left).
            Yields.bind (assert_some {Q = λ _ v. v ≡ w₁} o.0 w₁ some_bytes refl) λ _ w₂ same.
              rw (same, known)
                (take_line-Next r name l n _ ls fs bs cs w₁ i small lines files (omega arith) left)

    when_finished :
        (r : MainReceiver) (w : W)
        → r.file_finished ≡ true
        → open_if_finished log_file fd r w ≡ open_file log_file fd r w
    unfolding open_if_finished
    when_finished r w e =
        ap (λ (b : Bool). (if b then open_file log_file fd r else pure (r, true)) w) e

    when_open :
        (r : MainReceiver) (w : W)
        → r.file_finished ≡ false
        → open_if_finished log_file fd r w ≡ (Outcome.ok (r, true), w)
    unfolding open_if_finished pure
    when_open r w e = ap (λ (b : Bool). (if b then open_file log_file fd r else pure (r, true)) w) e

    open_then :
        (again : MainReceiver → Io W (MainReceiver × Option FileLine))
        → MainReceiver
        → Io W (MainReceiver × Option FileLine)
    open_then again r = do
      (current, live) ← open_if_finished log_file fd r
      if not live then pure (current, none) else line_or_end log_file fd again current

    open_then-between :
        {fs : List (Bytes × List Bytes)} {cs : Bytes}
        (again : MainReceiver → Io W (MainReceiver × Option FileLine)) (r : MainReceiver) (w : W)
        → Again again
        → r.file_finished ≡ true
        → FilesOn fs cs
        → length fs < suc fuel
        → pending fd w ≡ cs
        → Yields (Next (length fs) (all_lines fs)) Fault (open_then again r w)
    unfolding open_then ◌>>=◌ pure all_lines
    open_then-between again r w ih done nil room front =
        rw (when_finished r w done)
          (Yields.bind (open_file-end r w front) λ (r', live) w₁ stop. rw stop (returns refl))
    open_then-between again r w ih done (file {ls} {fs} {bs} {cs} name small lines files) room
          front =
        rw (when_finished r w done) (
          Yields.bind (open_file-Within r name (bs ++ cs) w small front)
            λ (r', live) w₁ (go, i, left).
              rw go (line_or_end-Next again r' name 1 fs cs w₁ ih i lines files (omega arith) left))

    open_then-Next :
        (again : MainReceiver → Io W (MainReceiver × Option FileLine)) (r : MainReceiver) (k : ℕ)
        (todo : List Entry) (w : W)
        → Again again
        → Expects r (pending fd w) k todo
        → k < suc fuel
        → Yields (Next k todo) Fault (open_then again r w)
    unfolding open_then ◌>>=◌ pure
    open_then-Next again r k todo w ih (between fs _ _ done files e e') room =
        rw (e, e') (open_then-between again r w ih done files (omega arith) refl)
    open_then-Next again r k todo w ih (within name n ls fs bs cs _ _ i lines files front e e')
          room =
        rw (when_open r w i.unfinished, e, e')
          (line_or_end-Next again r name n fs cs w ih i lines files (omega arith) front)

  -- The next call returns the next line, under the name of its file and with its number in that
  -- file, and then expects the lines that are left; when none is left it reports the end. The fuel is
  -- more than the number of files left to end, and a call may fail.
  pub receive_line_from_main_fd-Next :
      (fuel : ℕ) (r : MainReceiver) (k : ℕ) (todo : List Entry) (w : W)
      → Expects r (pending fd w) k todo
      → k < fuel
      → Yields (Next k todo) Fault (receive_line_from_main_fd fuel log_file fd r w)
  unfolding receive_line_from_main_fd open_then
  receive_line_from_main_fd-Next zero r k todo w x room = absurd (omega arith)
  receive_line_from_main_fd-Next (suc fuel) r k todo w x room =
      open_then-Next fuel (receive_line_from_main_fd fuel log_file fd) r k todo w
        (receive_line_from_main_fd-Next fuel) x room
