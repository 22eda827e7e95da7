-- ===== src/Protocol/Input/Laws.antt =====
-- send_file_to_mapper of src/protocol.c, and the bytes it puts on the wire.
use mr_lib.Common.{
  ℕ, ◌+◌, ◌<◌, ◌≡◌, refl, ap, sym, ◌∙◌, inl, inr, true, false, List, [], ◌∷◌, ◌++◌, map,
  append_assoc, append-nil, Bytes, length, ◌==◌, ==_refl, size_limit,
}
use mr_lib.Os.{Request, Os}
use mr_lib.Os.Io.{pure, failed, ◌>>=◌, syscall_ret, call, free}
use mr_lib.Os.Calls
use mr_lib.Os.Lawful.{Lawful, Files, frame-Kept, need-Yields}
use mr_lib.Os.Quiet.{Quiet-fclose}
use mr_lib.Os.Yields
use mr_lib.Os.Yields.{Yields, returns, fails}
use mr_lib.Log.{LogFile}
use mr_lib.Protocol.Stream.Laws.{write_n-Wrote}
use mr_lib.Protocol.Pair.Laws.{Wrote-append}
use mr_lib.Protocol.Lines.Laws.{name_header, eof_header, FilesOn, nil, file}
use mr_lib.Protocol.Input.{chomp, finish_file, send_file_to_mapper}
use mr_lib.Protocol.Input.Loop.{
  Body, Body-end, AreShort, Sent, Sent-Wrote, Sent-append, Sent-before, Sent-after, info-Quiet,
  write_header-Wrote, Looped, send_lines-Looped,
}

module _ {W : Type 0} ⦃os : Os W⦄ (law : Lawful os) where
  open law use {
    Fault, fault, pending, sent, files, frame, stream_frame, stale_size, fopen_read, getline_some,
    getline_none, ferror_broken,
  }

  module _ (log_file : LogFile) (fd : ℕ) where
    -- `f` has been opened to read `path`
    record Opened (path : Bytes) (f : ℕ) (w w' : W) : Type 0 where
      unread : (files w').unread f ≡ (files w).lines path
      sound : (files w').broken f ≡ false
      disk : Sent law fd [] w w'

    fopen-Opened :
        (path : Bytes) (w : W) → Yields (λ f w'. Opened path f w w') Fault (Calls.fopen path "r" w)
    unfolding Calls.fopen ◌>>=◌ call
    fopen-Opened path w =
        need-Yields law (os.sys (Request.fopen path "r") w).0 _ (fault (Request.fopen path "r") w)
          λ f e.
            let all = fopen_read path w f e in
            let here : (f == f) ≡ true = ==_refl f in
            record {
              unread = ap (λ (x : Files). x.unread f) all ∙ (rw here);
              sound = ap (λ (x : Files). x.broken f) all ∙ (rw here);
              disk = record {
                added =
                    (stream_frame (Request.fopen path "r") refl w fd).1
                    ∙ sym (append-nil (sent fd w));
                disk = record {
                  lines = ap (λ (x : Files). x.lines) all;
                  directory = ap (λ (x : Files). x.directory) all;
                  names = ap (λ (x : Files). x.names) all;
                };
              };
            }

    -- behind a loop that was not stopped by an error
    finish_file-Sent :
        (path : Bytes) (f : ℕ) (w : W)
        → (files w).broken f ≡ false
        → Yields
            (λ _ w'.
              (padding : Bytes) × (length padding ≡ 7) × Sent law fd (eof_header padding) w w')
            Fault
            (finish_file log_file fd path f w)
    unfolding finish_file ◌>>=◌ pure call syscall_ret
    finish_file-Sent path f w sound =
        let w₁ = (os.sys (Request.ferror f) w).1 in
        rw (ferror_broken f w, sound)
          (Yields.bind (write_header-Wrote law log_file fd _ _ w₁) λ _ w₂ (padding, seven, p).
            Yields.mono (Yields.handle _ ((Quiet-fclose law f).at w₂)) λ _ w₃ k. (
              padding,
              seven,
              Sent-after law fd _ w w₂ w₃
                  (Sent-before law fd _ w w₁ w₂ (frame-Kept law (Request.ferror f) refl w)
                    (Sent-Wrote law p))
                  k,
            ))

    finish_file-fails :
        (path : Bytes) (f : ℕ) (w : W) {Q : Unit {0} → W → Type 0}
        → Fault
        → (files w).broken f ≡ true
        → Yields Q Fault (finish_file log_file fd path f w)
    unfolding finish_file ◌>>=◌ pure call failed syscall_ret
    finish_file-fails path f w bad broken = rw (ferror_broken f w, broken) (fails bad)

    -- an encoding of the one file `path`, whose lines are `ls` as they stand on the disk
    abbrev pub SentFile : Bytes → List Bytes → W → W → Type 0
    SentFile path ls w w' =
        (bs : Bytes) × FilesOn ((path, map chomp ls) ∷ []) bs × Sent law fd bs w w'

    one_file :
        (path : Bytes) (ls : List Bytes) (bs padding : Bytes) (u v w z : W)
        → length path + 1 < size_limit
        → length padding ≡ 7
        → Body (map chomp ls) bs
        → Sent law fd (name_header path ++ path) u v
        → Sent law fd bs v w
        → Sent law fd (eof_header padding) w z
        → SentFile path ls u z
    one_file path ls bs padding u v w z small seven body p q r = (
      name_header path ++ (path ++ ((bs ++ eof_header padding) ++ [])),
      file path small (Body-end padding seven body) nil,
      rw
          (
            append-nil (bs ++ eof_header padding),
            ← append_assoc (name_header path) path (bs ++ eof_header padding),
          )
          (Sent-append law fd _ _ u v z p (Sent-append law fd _ _ v w z q r)),
    )

    -- If the lines of a file and its name are short enough and the fuel is more than the number of
    -- lines, the sender writes an encoding of the file, which is its name and its lines without
    -- newlines, and leaves the disk as it was; unless a call fails.
    pub send_file_to_mapper-SentFile :
        (fuel : ℕ) (path : Bytes) (w : W)
        → length path + 1 < size_limit
        → AreShort ((files w).lines path)
        → length ((files w).lines path) < fuel
        → Yields
            (λ _ w'. SentFile path ((files w).lines path) w w')
            Fault
            (send_file_to_mapper fuel log_file fd path w)
    unfolding send_file_to_mapper ◌>>=◌ pure syscall_ret Calls.fopen call free
    send_file_to_mapper-SentFile fuel path w small short h =
        let ls = (files w).lines path in
        Yields.bind ((info-Quiet law log_file fd _ _).at w) λ _ w₁ k₁.
          Yields.bind (Yields.handle _ (fopen-Opened path w₁)) λ f w₂ o.
            Yields.bind (Yields.handle _ (write_n-Wrote law fd (name_header path) w₂))
              λ _ w₃ (_, p).
                Yields.bind (Yields.handle _ (write_n-Wrote law fd path w₃)) λ _ w₄ (_, q).
                  let same = q.files_kept ∙ p.files_kept in
                  let left : (files w₄).unread f ≡ ls =
                    ap (λ (x : Files). x.unread f) same
                    ∙ o.unread
                    ∙ ap (λ (x : Files). x.lines path) k₁.files_kept in
                  let sound = ap (λ (x : Files). x.broken f) same ∙ o.sound in
                  let front = Sent-before law fd _ w w₁ w₄ k₁ (
                    Sent-append law fd [] _ w₁ w₂ w₄ o.disk
                      (Sent-Wrote law (Wrote-append law fd _ _ w₂ w₃ w₄ p q))) in
                  Yields.bind (send_lines-Looped law log_file fd fuel f 0 path ls w₄ h short left)
                    λ buffer w₅ loop. Yields.bind (finish buffer f w₅ loop sound front) λ _ w₆ s.
                      Yields.mono ((info-Quiet law log_file fd _ _).at w₆)
                        λ _ w₇ k₇. (s.0, s.1, Sent-after law fd s.0 w w₆ w₇ s.2 k₇)
      where
        finish :
            (buffer f : ℕ) {w₄ : W} (w₅ : W)
            → Looped law log_file fd f ((files w).lines path) w₄ w₅
            → (files w₄).broken f ≡ false
            → Sent law fd (name_header path ++ path) w w₄
            → Yields
                (λ _ z. SentFile path ((files w).lines path) w z)
                Fault
                (finish_file log_file fd path f (os.sys (Request.free buffer) w₅).1)
        finish buffer f w₅ (inl (bad, broken)) sound front =
            let k = frame-Kept law (Request.free buffer) refl w₅ in
            finish_file-fails path f _ bad (ap (λ (x : Files). x.broken f) k.files_kept ∙ broken)
        finish buffer f w₅ (inr (bs, body, s, same)) sound front =
            let k = frame-Kept law (Request.free buffer) refl w₅ in
            Yields.mono
              (finish_file-Sent path f _
                (ap (λ (x : Files). x.broken f) k.files_kept ∙ same ∙ sound))
              λ _ z (padding, seven, t).
                one_file path _ bs padding w _ w₅ z small seven body front s
                  (Sent-before law fd _ w₅ _ z k t)
