-- ===== src/Protocol/Stream/Laws.antt =====
-- What a whole transfer does to the two ends of a descriptor.
use mr_lib.Common.{
  ℕ, zero, suc, ◌+◌, ◌-◌, ◌≤◌, ◌<◌, ◌≡◌, refl, ap, sym, ◌∙◌, inl, inr, [], ◌∷◌, ◌++◌, append-nil,
  append_assoc, Bytes, length, take, drop, ltb, Bool-cases, if◌then◌else◌, arith, length-append,
  take-of-prefix, drop-of-prefix, take-nil, drop-nil, drop-drop, take-append-drop, drop-eq-nil,
  length-drop,
}
use mr_lib.Os.{Request, Os}
use mr_lib.Os.Io.{◌>>=◌, pure, call, no_handler, syscall_ret}
use mr_lib.Os.Calls
use mr_lib.Os.Lawful.{Lawful, need-Yields}
use mr_lib.Os.Yields
use mr_lib.Os.Yields.{Yields, returns, fails}
use mr_lib.Protocol.Stream.{is_empty, read_loop, read_n, write_loop, write_n}

module _ {W : Type 0} ⦃os : Os W⦄ (law : Lawful os) where
  open law use {
    Fault, fault, pending, sent, read_some, files, read_sent, read_files, write_some, write_pending,
    write_files,
  }

  -- the world after the next `n` bytes have been read from `fd`
  pub record Took (fd n : ℕ) (w : W) (bs : Bytes) (w' : W) : Type 0 where
    pub bytes : bs ≡ take n (pending fd w)
    pub rest : pending fd w' ≡ drop n (pending fd w)
    pub kept : (to : ℕ) → sent to w' ≡ sent to w
    pub files_kept : files w' ≡ files w

  pub record Wrote (fd : ℕ) (bs : Bytes) (w : W) (w' : W) : Type 0 where
    pub added : sent fd w' ≡ sent fd w ++ bs
    pub kept : (from : ℕ) → pending from w' ≡ pending from w
    pub files_kept : files w' ≡ files w

  record Chunk (fd n : ℕ) (w : W) (bs : Bytes) (w' : W) : Type 0 where
    front : pending fd w ≡ bs ++ pending fd w'
    small : length bs ≤ n
    ended : 0 < n → bs ≡ [] → pending fd w ≡ []
    kept : (to : ℕ) → sent to w' ≡ sent to w
    files_kept : files w' ≡ files w

  read-Chunk :
      (fd n : ℕ) (w : W) → Yields (Chunk fd n w) Fault (syscall_ret (Calls.read fd n) no_handler w)
  unfolding Calls.read syscall_ret ◌>>=◌ call
  read-Chunk fd n w = Yields.handle _ (
      need-Yields law (os.sys (Request.read fd n) w).0 _ (fault (Request.read fd n) w) λ bs e.
        let (front, small, ended) = read_some fd n w bs e in
        record {
          front = front;
          small = small;
          ended = ended;
          kept = λ to. read_sent fd n to w;
          files_kept = read_files fd n w;
        })

  Took-more :
      (fd m : ℕ) (u v w : W) (bs cs : Bytes)
      → Chunk fd m u bs v
      → Took fd (m - length bs) v cs w
      → Took fd m u (bs ++ cs) w
  Took-more fd m u v w bs cs c t = record {
    bytes =
        ap (λ (x : Bytes). bs ++ x) t.bytes
        ∙ sym (take-of-prefix bs (pending fd v) m c.small)
        ∙ ap (take m) (sym c.front);
    rest = t.rest ∙ sym (drop-of-prefix bs (pending fd v) m c.small) ∙ ap (drop m) (sym c.front);
    kept = λ to. t.kept to ∙ c.kept to;
    files_kept = t.files_kept ∙ c.files_kept;
  }

  Took-end : (fd m : ℕ) (u v : W) → 0 < m → Chunk fd m u [] v → Took fd m u [] v
  Took-end fd m u v h c =
      let none_left : pending fd u ≡ [] = c.ended h refl in
      record {
        bytes = sym (take-nil m) ∙ ap (take m) (sym none_left);
        rest = sym c.front ∙ none_left ∙ sym (drop-nil m) ∙ ap (drop m) (sym none_left);
        kept = c.kept;
        files_kept = c.files_kept;
      }

  Took-zero : (fd m : ℕ) (w : W) → m ≡ 0 → Took fd m w [] w
  Took-zero fd m w e = record { bytes = rw e; rest = rw e; kept = λ to. refl; files_kept = refl }

  -- what a loop that has `buf` and wants `m` more ends with
  abbrev Filled : (fd m : ℕ) → W → Bytes → Bytes → W → Type 0
  Filled fd m w buf bs w' = (more : Bytes) × (bs ≡ buf ++ more) × Took fd m w more w'

  Filled-more :
      (fd m n : ℕ) (u v w : W) (buf bs out : Bytes)
      → Chunk fd m u bs v
      → n ≡ m - length bs
      → Filled fd n v (buf ++ bs) out w
      → Filled fd m u buf out w
  Filled-more fd m n u v w buf bs out c e (more, eq, t) =
      (bs ++ more, eq ∙ append_assoc buf bs more, Took-more fd m u v w bs more c (rw e at t))

  read_round :
      (fuel fd n : ℕ) (buf bs : Bytes) (u v : W)
      → 0 < n - length buf
      → Chunk fd (n - length buf) u bs v
      → (0 < length bs
          → Yields
              (Filled fd (n - length (buf ++ bs)) v (buf ++ bs))
              Fault
              (read_loop fuel fd n (buf ++ bs) v))
      → Yields
          (Filled fd (n - length buf) u buf)
          Fault
          ((if is_empty bs then pure buf else read_loop fuel fd n (buf ++ bs)) v)
  unfolding pure
  read_round fuel fd n buf [] u v h c rest =
      returns ([], sym (append-nil buf), Took-end fd _ u v h c)
  read_round fuel fd n buf (b ∷ bs) u v h c rest = Yields.mono (rest (omega arith)) λ out w f.
      Filled-more fd _ _ u v w buf (b ∷ bs) out c (omega (arith, length-append buf (b ∷ bs))) f

  read_loop-Filled :
      (fuel fd n : ℕ) (buf : Bytes) (w : W)
      → n - length buf < fuel
      → Yields (Filled fd (n - length buf) w buf) Fault (read_loop fuel fd n buf w)
  unfolding read_loop pure ◌>>=◌
  read_loop-Filled zero fd n buf w h = absurd (omega arith)
  read_loop-Filled (suc fuel) fd n buf w h = elim (Bool-cases (ltb (length buf) n)) [
    | inr full ↦ rw full (returns ([], sym (append-nil buf), Took-zero fd _ w (ground arith)))
    | inl room ↦ rw room (
        Yields.bind (read-Chunk fd (n - length buf) w) λ bs v c.
          read_round fuel fd n buf bs w v (ground arith) c λ some_bytes.
            read_loop-Filled fuel fd n (buf ++ bs) v (ground (arith, length-append buf bs)))
  ]

  -- `read_n` takes the next `n` bytes, or all that are left before the end of file, however the reads
  -- cut them, unless a call fails.
  pub read_n-Took : (fd n : ℕ) (w : W) → Yields (Took fd n w) Fault (read_n fd n w)
  unfolding read_n
  read_n-Took fd n w =
      Yields.mono (read_loop-Filled (n + 1) fd n [] w (omega arith))
        λ bs w' (more, e, t). let m : n - 0 ≡ n = omega arith in rw e (rw m at t)

  record Part (fd : ℕ) (bs : Bytes) (w : W) (k : ℕ) (w' : W) : Type 0 where
    added : sent fd w' ≡ sent fd w ++ take k bs
    small : k ≤ length bs
    moved : 0 < length bs → 0 < k
    kept : (from : ℕ) → pending from w' ≡ pending from w
    files_kept : files w' ≡ files w

  write-Part :
      (fd : ℕ) (bs : Bytes) (w : W)
      → Yields (Part fd bs w) Fault (syscall_ret (Calls.write fd bs) no_handler w)
  unfolding Calls.write syscall_ret ◌>>=◌ call
  write-Part fd bs w = Yields.handle _ (
      need-Yields law (os.sys (Request.write fd bs) w).0 _ (fault (Request.write fd bs) w) λ k e.
        let (added, small, moved) = write_some fd bs w k e in
        record {
          added = added;
          small = small;
          moved = moved;
          kept = λ from. write_pending fd from bs w;
          files_kept = write_files fd bs w;
        })

  abbrev Flushed : (fd : ℕ) → Bytes → ℕ → W → ℕ → W → Type 0
  Flushed fd buffer total w k w' = (k ≡ length buffer) × Wrote fd (drop total buffer) w w'

  Flushed-more :
      (fd : ℕ) (buffer : Bytes) (total j : ℕ) (u v : W) (k : ℕ) (w : W)
      → Part fd (drop total buffer) u j v
      → Flushed fd buffer (total + j) v k w
      → Flushed fd buffer total u k w
  Flushed-more fd buffer total j u v k w p (all, f) = (
    all,
    record {
      added =
          f.added
          ∙ ap (λ (x : Bytes). x ++ drop (total + j) buffer) p.added
          ∙ append_assoc (sent fd u) (take j (drop total buffer)) (drop (total + j) buffer)
          ∙ ap (λ (x : Bytes). sent fd u ++ x)
              (ap (λ (x : Bytes). take j (drop total buffer) ++ x) (sym (drop-drop total j buffer))
                ∙ take-append-drop j (drop total buffer));
      kept = λ from. f.kept from ∙ p.kept from;
      files_kept = f.files_kept ∙ p.files_kept;
    },
  )

  Flushed-end :
      (fd : ℕ) (buffer : Bytes) (total : ℕ) (w : W)
      → total ≡ length buffer
      → Flushed fd buffer total w total w
  Flushed-end fd buffer total w e = (
    e,
    record {
      added =
          sym (append-nil (sent fd w))
          ∙ ap (λ (x : Bytes). sent fd w ++ x) (sym (drop-eq-nil total buffer (omega arith)));
      kept = λ from. refl;
      files_kept = refl;
    },
  )

  write_loop-Flushed :
      (fuel fd : ℕ) (buffer : Bytes) (total : ℕ) (w : W)
      → length buffer - total < fuel
      → total ≤ length buffer
      → Yields (Flushed fd buffer total w) Fault (write_loop fuel fd buffer total w)
  unfolding write_loop pure ◌>>=◌
  write_loop-Flushed zero fd buffer total w h le = absurd (omega arith)
  write_loop-Flushed (suc fuel) fd buffer total w h le =
      elim (Bool-cases (ltb total (length buffer))) [
        | inr full ↦ rw full (returns (Flushed-end fd buffer total w (ground arith)))
        | inl room ↦ rw room (
            Yields.bind (write-Part fd (drop total buffer) w) λ j v p.
              let left = length-drop total buffer in
              Yields.mono
                (write_loop-Flushed fuel fd buffer (total + j) v (ground (arith, p.moved))
                  (omega arith))
                λ k w' f. Flushed-more fd buffer total j w v k w' p f)
      ]

  -- `write_n` sends the whole buffer and returns its length, however the writes cut it, unless a call
  -- fails.
  pub write_n-Wrote :
      (fd : ℕ) (buffer : Bytes) (w : W)
      → Yields (λ k w'. (k ≡ length buffer) × Wrote fd buffer w w') Fault (write_n fd buffer w)
  unfolding write_n
  write_n-Wrote fd buffer w =
      write_loop-Flushed (length buffer + 1) fd buffer 0 w (omega arith) (omega arith)
