-- ===== src/Protocol/Pair/Laws.antt =====
-- Pairs of src/protocol.c on the wire: what a sender writes, and what a receiver reads.
use mr_lib.Common.{
  ℕ, zero, suc, ◌+◌, ◌%◌, ◌<◌, ◌≡◌, ◌≢◌, refl, ap, sym, ◌∙◌, true, false, Option, none, some, [],
  ◌∷◌, ◌++◌, append_assoc, append-nil, Bytes, length, ltb, lt→ltb, ◌==◌, size_limit, arith,
  if◌then◌else◌, ◌&&◌,
}
use mr_lib.Os.{Request, Os}
use mr_lib.Os.Io.{Io, pure, failed, ◌>>=◌, Handler, syscall_ret, call}
use mr_lib.Os.Lawful.{Lawful, Kept, frame-Kept}
use mr_lib.Os.Yields
use mr_lib.Os.Yields.{Yields, returns, fails}
use mr_lib.Log.{LogFile, c_string}
use mr_lib.Protocol.Stream.Laws.{Wrote, write_n-Wrote}
use mr_lib.Protocol.Headers.{
  PairHeader, pair_header_bytes, pair_header_of, length-pair_header_bytes, pair_header_of-bytes,
  read_object-whole, read_object-end,
}
use mr_lib.Protocol.Pair.{
  Pair, null_or, write_some, read_some, allocate, send_pair_to_reducer_fd,
  receive_pair_from_mapper_fd,
}

-- a pair on the wire
unfoldable pub pair_bytes : (token value : Bytes) → Bytes
pair_bytes token value =
    pair_header_bytes (record { token_length = length token; value_length = length value })
    ++ (token ++ value)

module _ {W : Type 0} ⦃os : Os W⦄ (law : Lawful os) where
  open law use {Fault, fault, pending, sent, files, malloc_some}

  pub Wrote-nil : (fd : ℕ) (w : W) → Wrote law fd [] w w
  Wrote-nil fd w = record {
    added = sym (append-nil (sent fd w));
    kept = λ from. refl;
    files_kept = refl;
  }

  pub Wrote-append :
      (fd : ℕ) (a b : Bytes) (u v w : W)
      → Wrote law fd a u v
      → Wrote law fd b v w
      → Wrote law fd (a ++ b) u w
  Wrote-append fd a b u v w p q = record {
    added = q.added ∙ ap (λ (x : Bytes). x ++ b) p.added ∙ append_assoc (sent fd u) a b;
    kept = λ from. q.kept from ∙ p.kept from;
    files_kept = q.files_kept ∙ p.files_kept;
  }

  pub write_some-Wrote :
      (fd : ℕ) (bs : Bytes) (h : Handler W) (w : W)
      → Yields (λ _ w'. Wrote law fd bs w w') Fault (write_some fd bs h w)
  unfolding write_some pure syscall_ret
  write_some-Wrote fd [] h w = returns (Wrote-nil fd w)
  write_some-Wrote fd (b ∷ bs) h w =
      let some_bytes : ltb 0 (length (b ∷ bs)) ≡ true = ground arith in
      rw some_bytes (Yields.handle h (Yields.mono (write_n-Wrote law fd (b ∷ bs) w) λ k w' p. p.1))

  -- The sender of a pair writes the header, the token up to its terminator and the value, and nothing
  -- else, unless a call fails.
  pub send_pair_to_reducer_fd-Wrote :
      (log_file : LogFile) (fd : ℕ) (token value : Bytes) (w : W)
      → Yields
          (λ _ w'. Wrote law fd (pair_bytes (c_string token) value) w w')
          Fault
          (send_pair_to_reducer_fd log_file fd token value w)
  unfolding send_pair_to_reducer_fd pair_bytes ◌>>=◌ pure syscall_ret
  send_pair_to_reducer_fd-Wrote log_file fd token value w =
      Yields.bind (Yields.handle _ (write_n-Wrote law fd _ w)) λ _ w₁ p.
        Yields.bind (write_some-Wrote fd (c_string token) _ w₁) λ _ w₂ q.
          Yields.bind (write_some-Wrote fd value _ w₂)
            λ _ w₃ r. returns (Wrote-append fd _ _ w w₁ w₃ p.1 (Wrote-append fd _ _ w₁ w₂ w₃ q r))

  block_check :
      (block : Option ℕ) (needed : ℕ) (h : Handler W) (w : W) {Q : ℕ → W → Type 0}
      → (block ≡ none → 0 < needed → Fault)
      → ((p : ℕ) → block ≡ some p → p ≢ 0)
      → ((p : ℕ) → Q p w)
      → Yields Q Fault (
          (if (null_or block == 0) && ltb 0 needed
              then syscall_ret failed h
              else pure (null_or block))
            w)
  unfolding failed syscall_ret pure
  block_check none zero h w bad nonzero good = returns (good 0)
  block_check none (suc n) h w bad nonzero good =
      let needed : ltb 0 (suc n) ≡ true = ground arith in rw needed (fails (bad refl (omega arith)))
  block_check (some p) needed h w bad nonzero good =
      let there : (p == 0) ≡ false = ground (arith, nonzero p refl) in rw there (returns (good p))

  pub allocate-Kept :
      (size needed : ℕ) (h : Handler W) (w : W)
      → (0 < needed → 0 < size)
      → Yields (λ _ w'. Kept law w w') Fault (allocate size needed h w)
  unfolding allocate ◌>>=◌ call
  allocate-Kept size needed h w room =
      block_check (os.sys (Request.malloc size) w).0 needed h _
        (λ e n. fault (Request.malloc size) w (rw (e, lt→ltb 0 size (room n))))
        (λ p e. malloc_some size w p e) (λ p. frame-Kept law (Request.malloc size) refl w)

  pub record Read (fd : ℕ) (bs rest : Bytes) (w : W) (out : Bytes) (w' : W) : Type 0 where
    pub holds : out ≡ bs
    pub left : pending fd w' ≡ rest
    pub kept : (to : ℕ) → sent to w' ≡ sent to w
    pub files_kept : files w' ≡ files w

  pub read_some-Read :
      (fd n : ℕ) (bs rest : Bytes) (h : Handler W) (w : W)
      → length bs ≡ n
      → pending fd w ≡ bs ++ rest
      → Yields (Read fd bs rest w) Fault (read_some fd n h w)
  unfolding read_some ◌>>=◌ pure syscall_ret
  read_some-Read fd zero [] rest h w e front =
      returns (record { holds = refl; left = front; kept = λ to. refl; files_kept = refl })
  read_some-Read fd zero (b ∷ bs) rest h w e front = absurd (omega arith)
  read_some-Read fd (suc n) bs rest h w e front =
      let some_bytes : ltb 0 (suc n) ≡ true = ground arith in
      rw some_bytes (
        Yields.bind (Yields.handle h (read_object-whole law fd (suc n) bs rest w e front)) λ r w' q.
          returns
            (record { holds = q.holds; left = q.left; kept = q.kept; files_kept = q.files_kept }))

  -- a received pair holds the bytes that were on the wire
  pub record Delivered (fd : ℕ) (token value rest : Bytes) (w : W) (r : Option Pair) (w' : W)
      : Type 0 where
    pub pair : Pair
    pub returned : r ≡ some pair
    pub token_bytes : pair.token.bytes ≡ token
    pub value_bytes : pair.value.bytes ≡ value
    pub value_size : pair.value_size ≡ length value
    pub left : pending fd w' ≡ rest
    pub kept : (to : ℕ) → sent to w' ≡ sent to w
    pub files_kept : files w' ≡ files w

  Read-Kept :
      (fd : ℕ) (bs rest : Bytes) (u v w : W) (out : Bytes)
      → Kept law u v
      → Read fd bs rest v out w
      → Read fd bs rest u out w
  Read-Kept fd bs rest u v w out k r = record {
    holds = r.holds;
    left = r.left;
    kept = λ to. r.kept to ∙ k.sent_kept to;
    files_kept = r.files_kept ∙ k.files_kept;
  }

  -- `allocate` and then `read_some`
  allocate-Read :
      {B : Type 0} {Q : B → W → Type 0} (fd size n : ℕ) (bs rest : Bytes) (h : Handler W)
      (h' : ℕ → Handler W) (next : ℕ → Bytes → Io W B) (w : W)
      → (0 < n → 0 < size)
      → length bs ≡ n
      → pending fd w ≡ bs ++ rest
      → ((p : ℕ) (out : Bytes) (w' : W) → Read fd bs rest w out w' → Yields Q Fault (next p out w'))
      → Yields Q Fault ((do p ← allocate size n h; out ← read_some fd n (h' p); next p out) w)
  unfolding ◌>>=◌
  allocate-Read fd size n bs rest h h' next w room e front after =
      Yields.bind (allocate-Kept size n h w room) λ p v k.
        Yields.bind (read_some-Read fd n bs rest (h' p) v e (k.pending_kept fd ∙ front))
          λ out w' r. after p out w' (Read-Kept fd bs rest w v w' out k r)

  -- Where the encoding of a pair is in front of what can be read, and its lengths fit a `size_t` (that of
  -- the token with room for a terminator), the receiver returns that token and that value with its
  -- size, leaves the rest to be read and sends nothing; unless a call fails.
  pub receive_pair_from_mapper_fd-Delivered :
      (log_file : LogFile) (fd : ℕ) (token value rest : Bytes) (w : W)
      → length token + 1 < size_limit
      → length value < size_limit
      → pending fd w ≡ pair_bytes token value ++ rest
      → Yields (Delivered fd token value rest w) Fault (receive_pair_from_mapper_fd log_file fd w)
  unfolding receive_pair_from_mapper_fd pair_bytes ◌>>=◌ pure syscall_ret
  receive_pair_from_mapper_fd-Delivered log_file fd token value rest w small small' front =
      let header : PairHeader = record {
        token_length = length token;
        value_length = length value;
      } in
      let sent_header = pair_header_bytes header in
      Yields.bind
        (Yields.handle _ (
          read_object-whole law fd 16 sent_header (token ++ (value ++ rest)) w
            (length-pair_header_bytes header)
            (front
              ∙ append_assoc sent_header (token ++ value) rest
              ∙ ap (λ (x : Bytes). sent_header ++ x) (append_assoc token value rest))))
        λ r w₁ q.
          let known : pair_header_of r.1 ≡ header =
            ap pair_header_of q.holds ∙ pair_header_of-bytes header (omega arith) small' in
          let some_bytes : (r.0 == 0) ≡ false =
            ground (arith, q.count, length-pair_header_bytes header) in
          rw (some_bytes, known)
            (allocate-Read fd ((length token + 1) % size_limit) (length token) token (value ++ rest)
              _ _ _ w₁ (λ _. omega arith) refl q.left
              λ p text w₂ t.
                allocate-Read fd (length value) (length value) value rest _ _ _ w₂ (λ h. h) refl
                  t.left
                  λ p' bytes w₃ v. returns (record {
                    pair = _;
                    returned = refl;
                    token_bytes = t.holds;
                    value_bytes = v.holds;
                    value_size = refl;
                    left = v.left;
                    kept = λ to. v.kept to ∙ t.kept to ∙ q.kept to;
                    files_kept = v.files_kept ∙ t.files_kept ∙ q.files_kept;
                  }))

  -- With nothing left to read, the receiver of pairs reports the end of file and sends nothing; unless
  -- a call fails.
  pub receive_pair_from_mapper_fd-none :
      (log_file : LogFile) (fd : ℕ) (w : W)
      → pending fd w ≡ []
      → Yields
          (λ r w'. (r ≡ none) × ((to : ℕ) → sent to w' ≡ sent to w))
          Fault
          (receive_pair_from_mapper_fd log_file fd w)
  unfolding receive_pair_from_mapper_fd ◌>>=◌ pure syscall_ret
  receive_pair_from_mapper_fd-none log_file fd w none_left =
      Yields.bind (Yields.handle _ (read_object-end law fd 16 w none_left)) λ r w' q.
        let nothing : (r.0 == 0) ≡ true = ground (arith, q.0) in rw nothing (returns (refl, q.3))
