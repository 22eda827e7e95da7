-- ===== src/Protocol/Results/Laws.antt =====
-- Results of src/protocol.c: on the wire, and from the pipe to the output file.
use Prim.Native.String.{String}
use mr_lib.Common.{
  ℕ, ◌<◌, ◌≡◌, refl, ap, sym, ◌∙◌, inl, inr, true, false, [], ◌∷◌, ◌++◌, append_assoc, append-nil,
  Bytes, length, ltb, ◌==◌, ==_iff, Bool-cases, size_limit, size_bytes, arith,
}
use mr_lib.Os.{Request, Os}
use mr_lib.Os.Io.{pure, ◌>>=◌, syscall_ret, call, succeed, assert, free}
use mr_lib.Os.Calls
use mr_lib.Os.Lawful.{Lawful, Files, Kept, Kept-refl, frame-Kept}
use mr_lib.Os.Yields
use mr_lib.Os.Yields.{Yields, returns, fails}
use mr_lib.Log.{LogFile, c_string}
use mr_lib.Protocol.Stream.Laws.{Wrote, write_n-Wrote}
use mr_lib.Protocol.Headers.{
  ResultHeader, result_header_bytes, result_header_of, length-result_header_bytes,
  result_header_of-bytes, read_object-whole, read_object-end,
}
use mr_lib.Protocol.Pair.Laws.{Wrote-append, write_some-Wrote, allocate-Kept}
use mr_lib.Protocol.Results.{
  send_result_to_main_fd, copy_block, receive_token, receive_value, receive_result,
}

-- a result on the wire, and in the output file
unfoldable pub result_bytes : (token result : Bytes) → Bytes
result_bytes token result =
    result_header_bytes (record { token_length = length token; result_size = length result })
    ++ (token ++ result)

unfoldable pub entry_bytes : (token result : Bytes) → Bytes
entry_bytes token result =
    size_bytes (length token) ++ (token ++ (size_bytes (length result) ++ result))

module _ {W : Type 0} ⦃os : Os W⦄ (law : Lawful os) where
  open law use {Fault, fault, pending, sent, files, stream_frame, fwrite_all}

  -- The sender of a result writes the header, the token up to its terminator and the result, and
  -- nothing else, unless a call fails.
  pub send_result_to_main_fd-Wrote :
      (log_file : LogFile) (fd : ℕ) (token result : Bytes) (w : W)
      → Yields
          (λ _ w'. Wrote law fd (result_bytes (c_string token) result) w w')
          Fault
          (send_result_to_main_fd log_file fd token result w)
  unfolding send_result_to_main_fd result_bytes ◌>>=◌ pure syscall_ret
  send_result_to_main_fd-Wrote log_file fd token result w =
      Yields.bind (Yields.handle _ (write_n-Wrote law fd _ w)) λ _ w₁ p.
        Yields.bind (write_some-Wrote law fd (c_string token) _ w₁) λ _ w₂ q.
          Yields.bind (write_some-Wrote law fd result _ w₂) λ _ w₃ r.
            returns (Wrote-append law fd _ _ w w₁ w₃ p.1 (Wrote-append law fd _ _ w₁ w₂ w₃ q r))

  -- from `w` to `w'` the stream `f` has gained `out`, and `rest` is left to read
  pub record Copied (fd f : ℕ) (out rest : Bytes) (w w' : W) : Type 0 where
    pub stored : (files w').stored f ≡ (files w).stored f ++ out
    pub left : pending fd w' ≡ rest

  pub Copied-append :
      (fd f : ℕ) (a b r s : Bytes) (u v w : W)
      → Copied fd f a r u v
      → Copied fd f b s v w
      → Copied fd f (a ++ b) s u w
  Copied-append fd f a b r s u v w p q = record {
    stored = q.stored ∙ ap (λ (x : Bytes). x ++ b) p.stored ∙ append_assoc ((files u).stored f) a b;
    left = q.left;
  }

  Copied-nil :
      (fd f : ℕ) (r : Bytes) (u v : W) → Kept law u v → pending fd u ≡ r → Copied fd f [] r u v
  Copied-nil fd f r u v k e = record {
    stored = ap (λ (x : Files). x.stored f) k.files_kept ∙ sym (append-nil ((files u).stored f));
    left = k.pending_kept fd ∙ e;
  }

  fwrite-Copied :
      (fd f size count : ℕ) (bs : Bytes) (w : W)
      → Yields (λ _ w'. Copied fd f bs (pending fd w) w w') Fault (Calls.fwrite f size count bs w)
  unfolding Calls.fwrite ◌>>=◌ call succeed
  fwrite-Copied fd f size count bs w =
      let request = Request.fwrite f size count bs in
      elim (Bool-cases ((os.sys request w).0 == count)) [
        | inl all ↦ rw all (
            returns (record {
              stored = fwrite_all f size count bs w ((==_iff _ count).0 all);
              left = (stream_frame request refl w fd).0;
            }))
        | inr short ↦ rw short (fails (fault request w (rw short)))
      ]

  free-Copied :
      (fd f : ℕ) (p : ℕ) (r : Bytes) (w : W) → pending fd w ≡ r → Copied fd f [] r w (free p w)
  unfolding free
  free-Copied fd f p r w e = Copied-nil fd f r w _ (frame-Kept law (Request.free p) refl w) e

  assert_eq :
      {Q : Unit {0} → W → Type 0} (a b : ℕ) (w : W)
      → a ≡ b
      → Q tt w
      → Yields Q Fault (assert (a == b) w)
  unfolding assert
  assert_eq a b w e q = let t : (a == b) ≡ true = ground arith in rw t (returns q)

  module _ (log_file : LogFile) (fd f : ℕ) where
    Copied-same :
        (out rest : Bytes) (u v w : W)
        → files v ≡ files u
        → Copied fd f out rest v w
        → Copied fd f out rest u w
    Copied-same out rest u v w e c = record {
      stored = c.stored ∙ ap (λ (x : Files). x.stored f ++ out) e;
      left = c.left;
    }

    Copied-end :
        (out r rest : Bytes) (u v w : W)
        → Copied fd f out r u v
        → Copied fd f [] rest v w
        → Copied fd f out rest u w
    Copied-end out r rest u v w c e = record {
      stored = e.stored ∙ append-nil ((files v).stored f) ∙ c.stored;
      left = e.left;
    }

    copy_block-Copied :
        (p : ℕ) (bs rest : Bytes) (m m' : String) (w : W)
        → pending fd w ≡ bs ++ rest
        → Yields
            (λ _ w'. Copied fd f bs rest w w')
            Fault
            (copy_block log_file fd f p (length bs) m m' w)
    unfolding copy_block ◌>>=◌ pure syscall_ret
    copy_block-Copied p bs rest m m' w front =
        Yields.bind (Yields.handle _ (read_object-whole law fd (length bs) bs rest w refl front))
          λ r w₁ q.
            Yields.bind (assert_eq {Q = λ _ w'. w' ≡ w₁} r.0 (length bs) w₁ q.count refl)
              λ _ w₂ same.
                rw (same, q.holds)
                  (Yields.bind (Yields.handle _ (fwrite-Copied fd f 1 (length bs) bs w₁)) λ _ w₃ c.
                    let e = free-Copied fd f p rest w₃ (c.left ∙ q.left) in
                    returns
                      (Copied-same bs rest w w₁ _ q.files_kept (Copied-end bs _ rest w₁ w₃ _ c e)))

    receive_token-Copied :
        (bs rest : Bytes) (w : W)
        → pending fd w ≡ bs ++ rest
        → Yields
            (λ _ w'. Copied fd f bs rest w w')
            Fault
            (receive_token log_file fd f (length bs) w)
    unfolding receive_token ◌>>=◌ pure
    receive_token-Copied [] rest w front =
        returns (Copied-nil fd f rest w w (Kept-refl law w) front)
    receive_token-Copied (b ∷ bs) rest w front =
        let some_bytes : ltb 0 (length (b ∷ bs)) ≡ true = ground arith in
        rw some_bytes (
          Yields.bind (allocate-Kept law _ _ _ w (λ h. h)) λ p w₁ k.
            Yields.mono (copy_block-Copied p (b ∷ bs) rest _ _ w₁ (k.pending_kept fd ∙ front))
              λ _ w₂ c.
                Copied-append fd f [] (b ∷ bs) _ rest w w₁ w₂ (Copied-nil fd f _ w w₁ k refl) c)

    receive_value-Copied :
        (bs rest : Bytes) (w : W)
        → pending fd w ≡ bs ++ rest
        → Yields
            (λ _ w'. Copied fd f bs rest w w')
            Fault
            (receive_value log_file fd f (length bs) w)
    unfolding receive_value ◌>>=◌ pure
    receive_value-Copied [] rest w front =
        Yields.bind (allocate-Kept law 0 0 _ w (λ h. h))
          λ p w₁ k. returns (Copied-nil fd f rest w w₁ k front)
    receive_value-Copied (b ∷ bs) rest w front =
        let some_bytes : ltb 0 (length (b ∷ bs)) ≡ true = ground arith in
        Yields.bind (allocate-Kept law _ _ _ w (λ h. h)) λ p w₁ k. rw some_bytes (
          Yields.mono (copy_block-Copied p (b ∷ bs) rest _ _ w₁ (k.pending_kept fd ∙ front))
            λ _ w₂ c.
              Copied-append fd f [] (b ∷ bs) _ rest w w₁ w₂ (Copied-nil fd f _ w w₁ k refl) c)

    -- one round copies one result
    pub receive_result-Copied :
        (token result rest : Bytes) (w : W)
        → length token < size_limit
        → length result < size_limit
        → pending fd w ≡ result_bytes token result ++ rest
        → Yields
            (λ more w'. (more ≡ true) × Copied fd f (entry_bytes token result) rest w w')
            Fault
            (receive_result log_file fd f w)
    unfolding receive_result result_bytes entry_bytes ◌>>=◌ pure syscall_ret
    receive_result-Copied token result rest w small small' front =
        let header : ResultHeader = record {
          token_length = length token;
          result_size = length result;
        } in
        let bs = result_header_bytes header in
        let size = length-result_header_bytes header in
        Yields.bind
          (Yields.handle _ (
            read_object-whole law fd 16 bs (token ++ (result ++ rest)) w size (
              front
              ∙ append_assoc bs (token ++ result) rest
              ∙ ap (λ (x : Bytes). bs ++ x) (append_assoc token result rest))))
          λ r w₁ q.
            let known : result_header_of r.1 ≡ header =
              ap result_header_of q.holds ∙ result_header_of-bytes header small small' in
            let some_bytes : (r.0 == 0) ≡ false = ground (arith, q.count, size) in
            rw (some_bytes, known)
              (Yields.bind (assert_eq {Q = λ _ w'. w' ≡ w₁} r.0 16 w₁ (q.count ∙ size) refl)
                λ _ w₁' same. rw same (
                  Yields.bind
                    (Yields.handle _ (fwrite-Copied fd f 8 1 (size_bytes (length token)) w₁))
                    λ _ w₂ a.
                      Yields.bind (receive_token-Copied token (result ++ rest) w₂ (a.left ∙ q.left))
                        λ _ w₃ b.
                          Yields.bind
                            (Yields.handle _
                              (fwrite-Copied fd f 8 1 (size_bytes (length result)) w₃))
                            λ _ w₄ c.
                              Yields.bind (receive_value-Copied result rest w₄ (c.left ∙ b.left))
                                λ _ w₅ d. returns (
                                  refl,
                                  Copied-same _ rest w w₁ w₅ q.files_kept (
                                      Copied-append fd f _ _ _ rest w₁ w₂ w₅ a (
                                        Copied-append fd f _ _ _ rest w₂ w₃ w₅ b
                                          (Copied-append fd f _ _ _ rest w₃ w₄ w₅ c d))),
                                )))

    pub receive_result-end :
        (w : W)
        → pending fd w ≡ []
        → Yields
            (λ more w'. (more ≡ false) × Copied fd f [] [] w w')
            Fault
            (receive_result log_file fd f w)
    unfolding receive_result ◌>>=◌ pure syscall_ret
    receive_result-end w none_left =
        Yields.bind (Yields.handle _ (read_object-end law fd 16 w none_left)) λ r w' q.
          let nothing : (r.0 == 0) ≡ true = ground (arith, q.0) in
          rw nothing (
            returns (
              refl,
              record {
                stored = ap (λ (x : Files). x.stored f) q.2 ∙ sym (append-nil ((files w).stored f));
                left = q.1;
              },
            ))
