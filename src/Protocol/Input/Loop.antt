-- ===== src/Protocol/Input/Loop.antt =====
-- The loop over the lines of a file in send_file_to_mapper of src/protocol.c.
use Prim.Native.String.{String}
use mr_lib.Common.{
  ℕ, zero, suc, ◌+◌, ◌<◌, ◌≡◌, refl, ap, sym, ◌∙◌, ◌⊎◌, inl, inr, true, none, List, [], ◌∷◌, ◌++◌,
  map, append_assoc, append-nil, Bytes, length, ◌==◌, ==_refl, size_limit, arith, Option-cases,
}
use mr_lib.Os.{Arg, Request, Os}
use mr_lib.Os.Io.{pure, ◌>>=◌, Handler, syscall_ret, call}
use mr_lib.Os.Lawful.{Lawful, Files, update, Kept}
use mr_lib.Os.Quiet.{Quiet, Quiet-ret}
use mr_lib.Os.Yields
use mr_lib.Os.Yields.{Yields, returns, fails}
use mr_lib.Log.{LogFile}
use mr_lib.Log.Frame.{mr_log-Quiet}
use mr_lib.Protocol.Stream.Laws.{Wrote, write_n-Wrote}
use mr_lib.Protocol.Headers.{LineHeader, line_header_bytes}
use mr_lib.Protocol.Pair.Laws.{Wrote-append, write_some-Wrote}
use mr_lib.Protocol.Lines.Laws.{line_header, eof_header, LinesOn, end, line}
use mr_lib.Protocol.Input.{chomp, main_info, write_header, send_lines}

-- the lines of a file on the wire, without its end
pub data Body : List Bytes → Bytes → Type 0 where
  none_yet : Body [] []
  more :
      {ls : List Bytes} {bs : Bytes} (padding l : Bytes)
      → length padding ≡ 7
      → length l + 1 < size_limit
      → Body ls bs
      → Body (l ∷ ls) (line_header l padding ++ (l ++ bs))

pub Body-end :
    {ls : List Bytes} {bs : Bytes} (padding : Bytes)
    → length padding ≡ 7
    → Body ls bs
    → LinesOn ls (bs ++ eof_header padding)
Body-end padding e none_yet = end padding e
Body-end padding e (more {ls} {bs} pad l e' small b) =
    rw
      (
        append_assoc (line_header l pad) (l ++ bs) (eof_header padding),
        append_assoc l bs (eof_header padding),
      )
      (line pad l e' small (Body-end padding e b))

-- each line is short enough for its length to be a value of `size_t`, with room for a terminator
abbrev pub AreShort : List Bytes → Type 0
AreShort [] = Unit
AreShort (l ∷ ls) = (length (chomp l) + 1 < size_limit) × AreShort ls

module _ {W : Type 0} ⦃os : Os W⦄ (law : Lawful os) where
  open law use {
    Fault, fault, pending, sent, files, frame, stream_frame, stale_size, fopen_read, getline_some,
    getline_none, ferror_broken,
  }

  -- the file system is as it was
  pub record SameDisk (w w' : W) : Type 0 where
    pub lines : (files w').lines ≡ (files w).lines
    pub directory : (files w').directory ≡ (files w).directory
    pub names : (files w').names ≡ (files w).names

  pub SameDisk-trans : {u v w : W} → SameDisk u v → SameDisk v w → SameDisk u w
  SameDisk-trans a b = record {
    lines = b.lines ∙ a.lines;
    directory = b.directory ∙ a.directory;
    names = b.names ∙ a.names;
  }

  pub SameDisk-of : {u v : W} → files v ≡ files u → SameDisk u v
  SameDisk-of e = record {
    lines = ap (λ (x : Files). x.lines) e;
    directory = ap (λ (x : Files). x.directory) e;
    names = ap (λ (x : Files). x.names) e;
  }

  -- `bs` has been sent, and the disk is as it was
  pub record Sent (fd : ℕ) (bs : Bytes) (w w' : W) : Type 0 where
    pub added : sent fd w' ≡ sent fd w ++ bs
    pub disk : SameDisk w w'

  pub Sent-Wrote : {fd : ℕ} {bs : Bytes} {w w' : W} → Wrote law fd bs w w' → Sent fd bs w w'
  Sent-Wrote p = record { added = p.added; disk = SameDisk-of p.files_kept }

  pub Sent-append :
      (fd : ℕ) (a b : Bytes) (u v w : W) → Sent fd a u v → Sent fd b v w → Sent fd (a ++ b) u w
  Sent-append fd a b u v w p q = record {
    added = q.added ∙ ap (λ (x : Bytes). x ++ b) p.added ∙ append_assoc (sent fd u) a b;
    disk = SameDisk-trans p.disk q.disk;
  }

  pub Sent-before : (fd : ℕ) (b : Bytes) (u v w : W) → Kept law u v → Sent fd b v w → Sent fd b u w
  Sent-before fd b u v w k q = record {
    added = q.added ∙ ap (λ (x : Bytes). x ++ b) (k.sent_kept fd);
    disk = SameDisk-trans (SameDisk-of k.files_kept) q.disk;
  }

  pub Sent-after : (fd : ℕ) (b : Bytes) (u v w : W) → Sent fd b u v → Kept law v w → Sent fd b u w
  Sent-after fd b u v w q k = record {
    added = k.sent_kept fd ∙ q.added;
    disk = SameDisk-trans q.disk (SameDisk-of k.files_kept);
  }

  module _ (log_file : LogFile) (fd : ℕ) where
    pub info-Quiet :
        (message : String) (args : List Arg) → Quiet law (main_info log_file message args)
    unfolding main_info
    info-Quiet message args = Quiet-ret law _ _ (mr_log-Quiet law log_file _ _ _ message args)

    pub write_header-Wrote :
        (header : LineHeader) (h : Handler W) (w : W)
        → Yields
            (λ _ w'.
              (padding : Bytes) × (length padding ≡ 7)
              × Wrote law fd (line_header_bytes header padding) w w')
            Fault
            (write_header fd header h w)
    unfolding write_header syscall_ret
    write_header-Wrote header h w =
        Yields.handle h
          (Yields.mono (write_n-Wrote law fd _ w) λ k w' p. (os.stale w 7, stale_size w 7, p.1))

    -- what the loop over the lines ends with: all of them sent, or a broken stream
    abbrev pub Looped : ℕ → List Bytes → W → W → Type 0
    Looped f ls w w' =
        (Fault × ((files w').broken f ≡ true))
        ⊎ ((bs : Bytes) × Body (map chomp ls) bs
            × Sent fd bs w w'
            × ((files w').broken f ≡ (files w).broken f))

    Looped-more :
        (f : ℕ) (l : Bytes) (ls : List Bytes) (padding : Bytes) (u v w : W)
        → length padding ≡ 7
        → length (chomp l) + 1 < size_limit
        → Sent fd (line_header (chomp l) padding ++ chomp l) u v
        → (files v).broken f ≡ (files u).broken f
        → Looped f ls v w
        → Looped f (l ∷ ls) u w
    Looped-more f l ls padding u v w e small s same (inl bad) = inl bad
    Looped-more f l ls padding u v w e small s same (inr (bs, b, s', same')) = inr (
      line_header (chomp l) padding ++ (chomp l ++ bs),
      more padding (chomp l) e small b,
      rw (← append_assoc (line_header (chomp l) padding) (chomp l) bs)
          (Sent-append fd _ bs u v w s s'),
      same' ∙ same,
    )

    nothing_left :
        (f : ℕ) (ls : List Bytes) (u v : W)
        → ls ≡ []
        → files v ≡ files u
        → sent fd v ≡ sent fd u
        → Looped f ls u v
    nothing_left f [] u v e same same' = inr (
      [],
      none_yet,
      record { added = same' ∙ sym (append-nil (sent fd u)); disk = SameDisk-of same },
      ap (λ (x : Files). x.broken f) same,
    )
    nothing_left f (l ∷ ls) u v e same same' = absurd (cc)

    stopped :
        (f buffer : ℕ) (ls : List Bytes) (w : W)
        → (files w).unread f ≡ ls
        → (os.sys (Request.getline f buffer) w).0.1 ≡ none
        → Looped f ls w (os.sys (Request.getline f buffer) w).1
    stopped f buffer ls w front e = elim (getline_none f buffer w e) [
      | inr bad ↦ inl bad
      | inl (none_left, same) ↦
          nothing_left f ls w _ (sym front ∙ none_left) same
            (stream_frame (Request.getline f buffer) refl w fd).1
    ]

    -- after one line has been read, and sent
    line-Sent :
        (f buffer : ℕ) (l : Bytes) (ls : List Bytes) (padding : Bytes) (w v z : W)
        → files (os.sys (Request.getline f buffer) w).1
          ≡ record (files w) { unread = update f ls (files w).unread }
        → Wrote law fd (line_header (chomp l) padding) (os.sys (Request.getline f buffer) w).1 v
        → Wrote law fd (chomp l) v z
        → Sent fd (line_header (chomp l) padding ++ chomp l) w z
          × ((files z).broken f ≡ (files w).broken f)
          × ((files z).unread f ≡ ls)
    line-Sent f buffer l ls padding w v z e p q =
        let all = q.files_kept ∙ p.files_kept ∙ e in
        let r = Wrote-append law fd _ _ _ v z p q in
        (
          record {
            added =
                r.added
                ∙ ap (λ (x : Bytes). x ++ (line_header (chomp l) padding ++ chomp l))
                    (stream_frame (Request.getline f buffer) refl w fd).1;
            disk = record {
              lines = ap (λ (x : Files). x.lines) all;
              directory = ap (λ (x : Files). x.directory) all;
              names = ap (λ (x : Files). x.names) all;
            };
          },
          ap (λ (x : Files). x.broken f) all,
          ap (λ (x : Files). x.unread f) all ∙ (let here : (f == f) ≡ true = ==_refl f in rw here),
        )

    pub send_lines-Looped :
        (fuel f buffer : ℕ) (path : Bytes) (ls : List Bytes) (w : W)
        → length ls < fuel
        → AreShort ls
        → (files w).unread f ≡ ls
        → Yields (λ _ w'. Looped f ls w w') Fault (send_lines fuel log_file fd path f buffer w)
    unfolding send_lines ◌>>=◌ pure call
    send_lines-Looped zero f buffer path ls w h short front = absurd (omega arith)
    send_lines-Looped (suc fuel) f buffer path ls w h short front =
        elim (Option-cases (os.sys (Request.getline f buffer) w).0.1) [
          | inl e ↦ rw e (returns (stopped f buffer ls w front e))
          | inr (l, e) ↦
              let (pos, (ls', eq, moved)) = getline_some f buffer w l e in
              let split : ls ≡ l ∷ ls' = sym front ∙ eq in
              let short' = rw split at short in
              let fewer : length ls' < fuel = omega (arith, ap length split) in
              rw (e, split)
                (Yields.bind (write_header-Wrote _ _ _) λ _ v (padding, seven, p).
                  Yields.bind (write_some-Wrote law fd (chomp l) _ v) λ _ z q.
                    let (s, same, left) = line-Sent f buffer l ls' padding w v z moved p q in
                    Yields.mono (send_lines-Looped fuel f _ path ls' z fewer short'.1 left)
                      λ _ w' more. Looped-more f l ls' padding w z w' seven short'.0 s same more)
        ]
