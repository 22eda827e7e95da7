-- ===== src/Protocol/Results/Output.antt =====
-- Many results: the wire, the file, and the function that copies one to the other.
use mr_lib.Common.{
  ℕ, zero, suc, ◌<◌, ◌≡◌, refl, ap, ◌∙◌, some, List, [], ◌∷◌, ◌++◌, Bytes, length, size_limit,
  arith,
}
use mr_lib.Os.{Request, Os}
use mr_lib.Os.Io.{◌>>=◌, pure, syscall_ret, call}
use mr_lib.Os.Calls
use mr_lib.Os.Lawful.{Lawful, Files, need-Yields}
use mr_lib.Os.Quiet.{Quiet-fclose}
use mr_lib.Os.Yields
use mr_lib.Os.Yields.{Yields, returns}
use mr_lib.Log.{LogFile}
use mr_lib.Log.Frame.{mr_log-Quiet}
use mr_lib.Protocol.Results.{receive_results, receive_output_from_reducer}
use mr_lib.Protocol.Results.Laws.{
  result_bytes, entry_bytes, Copied, Copied-append, receive_result-Copied, receive_result-end,
}

-- a token and a result whose lengths are values of `size_t`
abbrev pub IsSized : List (Bytes × Bytes) → Type 0
IsSized [] = Unit
IsSized ((token, result) ∷ rs) =
    (length token < size_limit) × (length result < size_limit) × IsSized rs

unfoldable pub wire : List (Bytes × Bytes) → Bytes
wire [] = []
wire ((token, result) ∷ rs) = result_bytes token result ++ wire rs

unfoldable pub output : List (Bytes × Bytes) → Bytes
output [] = []
output ((token, result) ∷ rs) = entry_bytes token result ++ output rs

module _ {W : Type 0} ⦃os : Os W⦄ (law : Lawful os) (log_file : LogFile) (fd : ℕ) where
  open law use {Fault, fault, pending, files, stream_frame, fopen_write}

  receive_results-Copied :
      (f fuel : ℕ) (rs : List (Bytes × Bytes)) (w : W)
      → length rs < fuel
      → IsSized rs
      → pending fd w ≡ wire rs
      → Yields
          (λ _ w'. Copied law fd f (output rs) [] w w')
          Fault
          (receive_results fuel log_file fd f w)
  unfolding receive_results wire output ◌>>=◌ pure
  receive_results-Copied f zero rs w h sized front = absurd (omega arith)
  receive_results-Copied f (suc fuel) [] w h sized front =
      Yields.bind (receive_result-end law log_file fd f w front)
        λ more w' (stop, c). rw stop (returns c)
  receive_results-Copied f (suc fuel) ((token, result) ∷ rs) w h sized front =
      Yields.bind
        (receive_result-Copied law log_file fd f token result (wire rs) w sized.0 sized.1 front)
        λ more w₁ (go, c). rw go (
          Yields.mono (receive_results-Copied f fuel rs w₁ (omega arith) sized.2 c.left)
            λ _ w₂ d. Copied-append law fd f _ _ (wire rs) [] w w₁ w₂ c d)

  -- a stream that was opened for writing at `path` has been given `bs`
  abbrev pub Holds : Bytes → Bytes → W → Type 0
  Holds path bs w' =
      (v : W) × (f : ℕ) × ((os.sys (Request.fopen path "wb") v).0 ≡ some f)
      × ((files w').stored f ≡ bs)

  -- If the pipe holds the encodings of some results and nothing else, then the output file, once it
  -- is open, is given exactly their records in order, the pipe is read to its end, and the
  -- function returns 0, or -1 where a call fails.
  pub receive_output_from_reducer-output :
      (fuel : ℕ) (path : Bytes) (rs : List (Bytes × Bytes)) (w : W)
      → length rs < fuel
      → IsSized rs
      → pending fd w ≡ wire rs
      → Yields
          (λ _ w'. (pending fd w' ≡ []) × Holds path (output rs) w')
          Fault
          (receive_output_from_reducer fuel log_file fd path w)
  unfolding receive_output_from_reducer ◌>>=◌ syscall_ret Calls.fopen call pure
  receive_output_from_reducer-output fuel path rs w h sized front =
      Yields.bind (Yields.handle _ ((mr_log-Quiet law log_file _ _ _ _ _).at w)) λ _ w₁ k.
        Yields.bind
          (Yields.handle _ (
            need-Yields law (os.sys (Request.fopen path "wb") w₁).0 _
              {Q = λ f w₂.
                ((os.sys (Request.fopen path "wb") w₁).0 ≡ some f)
                × ((files w₂).stored f ≡ [])
                × (pending fd w₂ ≡ wire rs)}
              (fault (Request.fopen path "wb") w₁)
              λ f e. (
                e,
                fopen_write path w₁ f e,
                (stream_frame (Request.fopen path "wb") refl w₁ fd).0 ∙ k.pending_kept fd ∙ front,
              )))
          λ f w₂ o. Yields.bind (receive_results-Copied f fuel rs w₂ h sized o.2) λ _ w₃ c.
            Yields.bind (Yields.handle _ ((Quiet-fclose law f).at w₃)) λ _ w₄ k₄.
              Yields.bind (Yields.handle _ ((mr_log-Quiet law log_file _ _ _ _ _).at w₄)) λ _ w₅ k₅.
                returns (
                  k₅.pending_kept fd ∙ k₄.pending_kept fd ∙ c.left,
                  (
                    w₁,
                    f,
                    o.0,
                    ap (λ (x : Files). x.stored f) (k₅.files_kept ∙ k₄.files_kept)
                        ∙ c.stored
                        ∙ ap (λ (x : Bytes). x ++ output rs) o.1,
                  ),
                )
