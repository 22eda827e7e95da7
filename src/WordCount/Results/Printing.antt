-- ===== src/WordCount/Results/Printing.antt =====
-- The output file that the main process writes, as the example prints it.
use Prim.Native.String.{String}
use mr_lib.Common.{
  ℕ, zero, suc, ◌+◌, ◌%◌, ◌≤◌, ◌<◌, ◌≡◌, refl, ap, sym, ◌∙◌, none, some, List, [], ◌∷◌, ◌++◌,
  append_assoc, append-nil, map, Bytes, length, length-append, take, drop, take-append, drop-append,
  of_bytes, size_bytes, of_bytes-size_bytes, length-size_bytes, size_limit, arith,
}
use mr_lib.Os.{Arg, Request, Os}
use mr_lib.Os.Io.{
  Io, Outcome, ok, after, recover, pure, need, call, ◌>>=◌, Handler, syscall_ret, free,
}
use mr_lib.Os.Calls
use mr_lib.Protocol.Results.Laws.{entry_bytes}
use mr_lib.Protocol.Results.Output.{output}
use mr_lib.WordCount.Results.{
  Stdio, fread_or_break, print_value, print_entry, print_entries, next_turn,
}

-- What is relied on: `unread w` is what is left to read of the file, and `printed w` what has been
-- printed. Blocks are not refused.
pub record Console {W : Type 0} (os : Os W) (stdio : Stdio W) (f : ℕ) : Type 0 where
  pub unread : W → Bytes
  pub printed : W → List (String × List Arg)
  pub read_whole :
      (n : ℕ) (w : W)
      → n ≤ length (unread w)
      → ((stdio.fread f n w).0 ≡ some (take n (unread w)))
        × (unread (stdio.fread f n w).1 ≡ drop n (unread w))
  pub read_short : (n : ℕ) (w : W) → length (unread w) < n → (stdio.fread f n w).0 ≡ none
  pub read_printed : (n : ℕ) (w : W) → printed (stdio.fread f n w).1 ≡ printed w
  pub printf_printed :
      (format : String) (args : List Arg) (w : W)
      → printed (stdio.printf format args w) ≡ printed w ++ ((format, args) ∷ [])
  pub printf_unread :
      (format : String) (args : List Arg) (w : W) → unread (stdio.printf format args w) ≡ unread w
  pub malloc_some : (size : ℕ) (w : W) → (p : ℕ) × ((os.sys (Request.malloc size) w).0 ≡ some p)
  pub malloc_kept :
      (size : ℕ) (w : W)
      → (unread (os.sys (Request.malloc size) w).1 ≡ unread w)
        × (printed (os.sys (Request.malloc size) w).1 ≡ printed w)
  pub free_kept :
      (p : ℕ) (w : W)
      → (unread (os.sys (Request.free p) w).1 ≡ unread w)
        × (printed (os.sys (Request.free p) w).1 ≡ printed w)

-- the line of a word
abbrev pub line_of : Bytes × ℕ → String × List Arg
line_of (token, n) = ("%s: %zu\n", Arg.bytes token ∷ Arg.num n ∷ [])

-- the result that the reducer of the word count emits
abbrev pub result_of : Bytes × ℕ → Bytes × Bytes
result_of (token, n) = (token, size_bytes n)

-- the lengths of the tokens and the numbers are values of `size_t`
abbrev pub AreSizes : List (Bytes × ℕ) → Type 0
AreSizes [] = Unit
AreSizes ((token, n) ∷ counts) = (length token < size_limit) × (n < size_limit) × AreSizes counts

module _ {W : Type 0} ⦃os : Os W⦄ {stdio : Stdio W} {f : ℕ} (console : Console os stdio f) where
  open console use {
    unread, printed, read_whole, read_short, read_printed, printf_printed, printf_unread,
    malloc_some, malloc_kept, free_kept,
  }

  -- code that returns a value, prints some lines and leaves some bytes
  record Gives {A : Type 0} (a : A) (lines : List (String × List Arg)) (rest : Bytes) (w : W)
      (o : Outcome A × W) : Type 0 where
    after_world : W
    ends : o ≡ (ok a, after_world)
    said : printed after_world ≡ printed w ++ lines
    left : unread after_world ≡ rest

  Gives-bind :
      {A B : Type 0} {a : A} {b : B} {ls ms : List (String × List Arg)} {r s : Bytes} {w : W}
      {m : Outcome A × W} (k : A → Io W B)
      → Gives a ls r w m
      → ((v : W) → unread v ≡ r → Gives b ms s v (k a v))
      → Gives b (ls ++ ms) s w (after m k)
  Gives-bind {A} {ls = ls} {ms = ms} {w = w} k g next =
      let h = next g.after_world g.left in
      record {
        after_world = h.after_world;
        ends = ap (λ (o : Outcome A × W). after o k) g.ends ∙ h.ends;
        said =
            h.said
            ∙ ap (λ (x : List (String × List Arg)). x ++ ms) g.said
            ∙ append_assoc (printed w) ls ms;
        left = h.left;
      }

  Gives-fread :
      (bs rest : Bytes) (n : ℕ) (w : W)
      → length bs ≡ n
      → unread w ≡ bs ++ rest
      → Gives bs [] rest w (fread_or_break stdio f n w)
  unfolding fread_or_break need
  Gives-fread bs rest n w sized e =
      let enough : n ≤ length (unread w) = rw e (omega (arith, length-append bs rest, sized)) in
      let (got, left_over) = read_whole n w enough in
      let whole : take n (unread w) ≡ bs = rw e (take-append n bs rest sized) in
      let others : drop n (unread w) ≡ rest = rw e (drop-append n bs rest sized) in
      record {
        after_world = (stdio.fread f n w).1;
        ends = rw (got, whole) refl;
        said = read_printed n w ∙ sym (append-nil (printed w));
        left = left_over ∙ others;
      }

  Gives-handle :
      {A : Type 0} {a : A} {ls : List (String × List Arg)} {r : Bytes} {w : W} {o : Outcome A × W}
      (h : Handler W)
      → Gives a ls r w o
      → Gives a ls r w (recover o h)
  Gives-handle {A} h g = record {
    after_world = g.after_world;
    ends = ap (λ (o : Outcome A × W). recover o h) g.ends;
    said = g.said;
    left = g.left;
  }

  Gives-malloc :
      (size : ℕ) (rest : Bytes) (w : W)
      → unread w ≡ rest
      → (p : ℕ) × Gives p [] rest w (Calls.malloc size w)
  unfolding Calls.malloc call need ◌>>=◌
  Gives-malloc size rest w e =
      let (p, got) = malloc_some size w in
      let (kept, quiet) = malloc_kept size w in
      (
        p,
        record {
          after_world = (os.sys (Request.malloc size) w).1;
          ends = rw got refl;
          said = quiet ∙ sym (append-nil (printed w));
          left = kept ∙ e;
        },
      )

  Gives-value :
      (block : ℕ) (token : Bytes) (size n : ℕ) (rest : Bytes) (w : W)
      → size ≡ 8
      → n < size_limit
      → unread w ≡ size_bytes n ++ rest
      → Gives tt (line_of (token, n) ∷ []) rest w (print_value stdio f block token size w)
  unfolding print_value ◌>>=◌ pure syscall_ret
  Gives-value block token size n rest w whole small e = rw whole (
      Gives-bind _
        (Gives-handle (free block) (Gives-fread (size_bytes n) rest 8 w (length-size_bytes n) e))
        λ v left. record {
          after_world = stdio.printf "%s: %zu\n" (Arg.bytes token ∷ Arg.num n ∷ []) v;
          ends = rw (of_bytes-size_bytes n small) refl;
          said = printf_printed _ _ v;
          left = printf_unread _ _ v ∙ left;
        })

  Gives-entry :
      (token : Bytes) (n : ℕ) (rest : Bytes) (w : W)
      → length token < size_limit
      → n < size_limit
      → unread w ≡ entry_bytes token (size_bytes n) ++ rest
      → Gives tt (line_of (token, n) ∷ []) rest w (print_entry stdio f w)
  unfolding print_entry ◌>>=◌ pure entry_bytes syscall_ret free
  Gives-entry token n rest w short small e =
      let eight = size_bytes 8 in
      let value = size_bytes n in
      let name = size_bytes (length token) in
      let cut : unread w ≡ name ++ (token ++ (eight ++ (value ++ rest))) =
        e
        ∙ rw (length-size_bytes n) (
            append_assoc name (token ++ (eight ++ value)) rest
            ∙ ap (λ (x : Bytes). name ++ x)
                (append_assoc token (eight ++ value) rest
                  ∙ ap (λ (x : Bytes). token ++ x) (append_assoc eight value rest))) in
      Gives-bind _
        (Gives-fread (size_bytes (length token)) (token ++ (size_bytes 8 ++ (size_bytes n ++ rest)))
          8 w (length-size_bytes (length token)) cut)
        λ w₁ e₁.
          let (p, block) =
            Gives-malloc ((of_bytes (size_bytes (length token)) + 1) % size_limit) _ w₁ e₁ in
          Gives-bind _ block λ w₂ e₂.
            Gives-bind _
              (Gives-handle (free p) (
                Gives-fread token (size_bytes 8 ++ (size_bytes n ++ rest)) _ w₂
                  (sym (of_bytes-size_bytes (length token) short)) e₂))
              λ w₃ e₃.
                Gives-bind _
                  (Gives-handle (free p) (
                    Gives-fread (size_bytes 8) (size_bytes n ++ rest) 8 w₃ (length-size_bytes 8)
                      e₃))
                  λ w₄ e₄.
                    Gives-bind _
                      (Gives-value p token _ n rest w₄ (of_bytes-size_bytes 8 (omega arith)) small
                        e₄)
                      λ w₅ e₅. record {
                        after_world = free p w₅;
                        ends = refl;
                        said = (free_kept p w₅).1 ∙ sym (append-nil (printed w₅));
                        left = (free_kept p w₅).0 ∙ e₅;
                      }

  -- code that ends, and has printed some lines
  pub record Prints (lines : List (String × List Arg)) (w : W) (o : Outcome (Unit {0}) × W)
      : Type 0 where
    pub after_world : W
    pub ends : o ≡ (ok tt, after_world)
    pub said : printed after_world ≡ printed w ++ lines

  Prints-over :
      (fuel : ℕ) (w : W) → unread w ≡ [] → Prints [] w (print_entries stdio (suc fuel) f w)
  unfolding print_entries print_entry fread_or_break need ◌>>=◌
  Prints-over fuel w e =
      let short : length (unread w) < 8 = rw e (omega arith) in
      record {
        after_world = (stdio.fread f 8 w).1;
        ends = rw (read_short 8 w short) refl;
        said = read_printed 8 w ∙ sym (append-nil (printed w));
      }

  Prints-next :
      {l : String × List Arg} {ls : List (String × List Arg)} {rest : Bytes} {w : W}
      {o : Outcome (Unit {0}) × W} (again : Io W (Unit {0}))
      → Gives tt (l ∷ []) rest w o
      → ((v : W) → unread v ≡ rest → Prints ls v (again v))
      → Prints (l ∷ ls) w (next_turn o again)
  Prints-next {l} {ls} {w = w} again g next =
      let h = next g.after_world g.left in
      record {
        after_world = h.after_world;
        ends = ap (λ (o : Outcome (Unit {0}) × W). next_turn o again) g.ends ∙ h.ends;
        said =
            h.said
            ∙ ap (λ (x : List (String × List Arg)). x ++ ls) g.said
            ∙ append_assoc (printed w) (l ∷ []) ls;
      }

  -- Of an output file that holds the results of the word count, as the main process writes them, the
  -- loop of the example prints each token with its number, in their order, and ends; the fuel exceeds
  -- the number of results, and no block is refused.
  pub print_entries-lines :
      (fuel : ℕ) (counts : List (Bytes × ℕ)) (w : W)
      → length counts < fuel
      → AreSizes counts
      → unread w ≡ output (map result_of counts)
      → Prints (map line_of counts) w (print_entries stdio fuel f w)
  unfolding print_entries output
  print_entries-lines zero counts w h sizes e = absurd (omega (arith, h))
  print_entries-lines (suc fuel) [] w h sizes e = Prints-over fuel w e
  print_entries-lines (suc fuel) ((token, n) ∷ counts) w h sizes e =
      Prints-next (print_entries stdio fuel f)
        (Gives-entry token n (output (map result_of counts)) w sizes.0 sizes.1 e)
        λ v left. print_entries-lines fuel counts v (omega (arith, h)) sizes.2 left
