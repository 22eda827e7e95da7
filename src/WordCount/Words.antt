-- ===== src/WordCount/Words.antt =====
-- The words of a line, and the mapper of the word count.
use mr_lib.Common.{
  ℕ, zero, suc, ◌+◌, ◌%◌, ◌≤◌, ◌<◌, ◌≡◌, refl, ap, sym, ◌∙◌, inl, inr, Bool, true, false, List, [],
  ◌∷◌, ◌++◌, map, Bytes, length, take, size_limit, if◌then◌else◌, Bool-cases, arith,
}
use mr_lib.Os.{Os}
use mr_lib.Os.Io.{Io, pure, ◌>>=◌, ◌>>◌, syscall_ret, free}
use mr_lib.Os.Calls
use mr_lib.Protocol.Lines.{FileLine}
use mr_lib.WordCount.{Ctype, skip, passed, left, emit_token, turn, scan, word_count_mapper}

-- a word in front of others, if it is not empty
abbrev pub put_word : Bytes → List Bytes → List Bytes
put_word [] ws = ws
put_word (c ∷ cs) ws = (c ∷ cs) ∷ ws

module _ (ctype : Ctype) where
  open ctype use {isalnum, tolower}

  -- the word that a text begins with, which may be empty, and the words behind it
  abbrev pub cut : Bytes → Bytes × List Bytes
  cut [] = ([], [])
  cut (b ∷ bs) =
      let rest = cut bs in
      if isalnum b then (tolower b ∷ rest.0, rest.1) else ([], put_word rest.0 rest.1)

  -- the longest runs of letters and digits, in lower case
  abbrev pub words : Bytes → List Bytes
  words bs = put_word (cut bs).0 (cut bs).1

  words-other : (b : ℕ) (bs : Bytes) → isalnum b ≡ false → words (b ∷ bs) ≡ words bs
  words-other b bs e = rw e refl

  cut-passed : (bs : Bytes) → cut bs ≡ (map tolower (passed ctype bs), words (left ctype bs))
  cut-passed [] = refl
  cut-passed (b ∷ bs) = with_first (isalnum b) refl (cut-passed bs)
    where
      with_first :
          (t : Bool)
          → isalnum b ≡ t
          → cut bs ≡ (map tolower (passed ctype bs), words (left ctype bs))
          → ◌≡◌ {A = Bytes × List Bytes}
              (if t then (tolower b ∷ (cut bs).0, (cut bs).1) else ([], words bs))
              (
                map tolower (if t then b ∷ passed ctype bs else []),
                words (if t then left ctype bs else b ∷ bs),
              )
      with_first true e h = ap (λ (p : Bytes × List Bytes). (tolower b ∷ p.0, p.1)) h
      with_first false e h = ap (λ (ws : List Bytes). ([], ws)) (sym (words-other b bs e))

  words-skip : (bs : Bytes) → words (skip ctype bs) ≡ words bs
  words-skip [] = refl
  words-skip (b ∷ bs) = with_first (isalnum b) refl (words-skip bs)
    where
      with_first :
          (t : Bool)
          → isalnum b ≡ t
          → words (skip ctype bs) ≡ words bs
          → words (if t then b ∷ bs else skip ctype bs) ≡ words (b ∷ bs)
      with_first true e h = refl
      with_first false e h = h ∙ sym (words-other b bs e)

  words-found :
      (b : ℕ) (bs : Bytes)
      → isalnum b ≡ true
      → words (b ∷ bs) ≡ map tolower (passed ctype (b ∷ bs)) ∷ words (left ctype (b ∷ bs))
  words-found b bs e =
      rw e (ap (λ (p : Bytes × List Bytes). (tolower b ∷ p.0) ∷ p.1) (cut-passed bs))

  length-left : (bs : Bytes) → length (left ctype bs) ≤ length bs
  length-left [] = omega arith
  length-left (b ∷ bs) = elim (Bool-cases (isalnum b)) [
    | inl e ↦ rw e (omega (arith, length-left bs))
    | inr e ↦ rw e (omega arith)
  ]

  -- what is left behind the bytes that are skipped: nothing, or a letter or digit in front
  data Skipped (bs : Bytes) : Bytes → Type 0 where
    all : Skipped bs []
    up_to : (c : ℕ) (cs : Bytes) → isalnum c ≡ true → length cs < length bs → Skipped bs (c ∷ cs)

  later : {bs cs : Bytes} (b : ℕ) → Skipped bs cs → Skipped (b ∷ bs) cs
  later b all = all
  later b (up_to c cs e h) = up_to c cs e (omega (arith, h))

  skip-Skipped : (bs : Bytes) → Skipped bs (skip ctype bs)
  skip-Skipped [] = all
  skip-Skipped (b ∷ bs) = elim (Bool-cases (isalnum b)) [
    | inl e ↦ rw e (up_to b bs e (omega arith))
    | inr e ↦ rw e (later b (skip-Skipped bs))
  ]

  module _ {W : Type 0} ⦃os : Os W⦄ (emit : (token value : Bytes) → Io W (Unit {0})) where
    -- a block for the word and its terminator, and the word emitted with no value
    unfoldable pub emit_word : Bytes → Io W (Unit {0})
    emit_word word = do
      address ← Calls.malloc ((length word + 1) % size_limit)
      syscall_ret (emit (word ++ (0 ∷ [])) []) (free address)
      λ w. pure tt (free address w)

    -- some words, one after the other, until one fails
    abbrev pub emit_all : List Bytes → Io W (Unit {0})
    emit_all [] = pure tt
    emit_all (word ∷ rest) = do emit_word word; emit_all rest

    length-map : (f : ℕ → ℕ) (bs : Bytes) → length (map f bs) ≡ length bs
    length-map f [] = refl
    length-map f (b ∷ bs) = ap suc (length-map f bs)

    emit_token-word : (token : Bytes) → emit_token ctype emit token ≡ emit_word (map tolower token)
    unfolding emit_token emit_word
    emit_token-word token = rw (length-map tolower token) refl

    turn-words :
        (fuel : ℕ) {bs rest : Bytes}
        → ((cs : Bytes) → length cs < length bs → scan ctype emit fuel cs ≡ emit_all (words cs))
        → Skipped bs rest
        → turn ctype emit (scan ctype emit fuel) rest ≡ emit_all (words rest)
    turn-words fuel next all = refl
    turn-words fuel next (up_to c cs e h) =
        let shorter : length (left ctype (c ∷ cs)) ≤ length cs = rw e (length-left cs) in
        rw (words-found c cs e, sym (emit_token-word (passed ctype (c ∷ cs))))
          (ap (λ (rest : Io W (Unit {0})). emit_token ctype emit (passed ctype (c ∷ cs)) >> rest)
            (next (left ctype (c ∷ cs)) (omega (arith, h, shorter))))

    scan-words :
        (fuel : ℕ) (bs : Bytes) → length bs < fuel → scan ctype emit fuel bs ≡ emit_all (words bs)
    unfolding scan
    scan-words zero bs h = absurd (omega (arith, h))
    scan-words (suc fuel) [] h = refl
    scan-words (suc fuel) (b ∷ bs) h =
        turn-words fuel (λ cs less. scan-words fuel cs (omega (arith, h, less)))
          (skip-Skipped (b ∷ bs))
        ∙ ap emit_all (words-skip (b ∷ bs))

    -- The mapper of the word count emits the words of the line, which are the longest runs of letters
    -- and digits, in lower case and in their order, each with no value, until a call fails.
    pub word_count_mapper-words :
        (line : FileLine)
        → word_count_mapper ctype emit line ≡ emit_all (words (take line.line_len line.line.bytes))
    unfolding word_count_mapper
    word_count_mapper-words line = scan-words _ _ (omega arith)
