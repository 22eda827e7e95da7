-- ===== src/WordCount/Totals.antt =====
-- The word count from the lines to the table of the reducer.
use mathlib.Core.List.{Perm, Permᴰ}
use mathlib.Core.Logic.{∥∥₁_elim}
use native.Mathlib.Nat.{ℕ_set}
use mr_lib.Common.{
  ℕ, ◌+◌, ◌<◌, ◌≡◌, ◌≢◌, refl, ap, ◌∙◌, inl, inr, Bool, true, false, List, [], ◌∷◌, ◌++◌, map,
  Bytes, length, ◌==◌, ==_differ, if◌then◌else◌, Bool-cases, arith,
}
use mr_lib.Os.{Os}
use mr_lib.Os.Lawful.{Lawful}
use mr_lib.Os.Yields
use mr_lib.Os.Yields.{Yields}
use mr_lib.Log.{LogFile, c_string}
use mr_lib.Protocol.Input.{same_text}
use mr_lib.Reducer.Table.{empty_table}
use mr_lib.Reducer.Table.Lookup.{lookup, lookup-empty_table}
use mr_lib.Reducer.Table.Chain.{c_string-c_string}
use mr_lib.Reducer.Collect.{collect}
use mr_lib.Reducer.Collect.Laws.{all_pairs, values_for, AreSized, collect-Grouped}
use mr_lib.WordCount.{Ctype}
use mr_lib.WordCount.Words.{put_word, cut, words}

-- the terminator is no letter or digit in lower case
abbrev pub IsPlain : Ctype → Type 0
IsPlain ctype = (b : ℕ) → ctype.isalnum b ≡ true → ctype.tolower b ≢ 0

-- no byte is the terminator
abbrev pub IsText : Bytes → Type 0
IsText [] = Unit
IsText (b ∷ bs) = (b ≢ 0) × IsText bs

abbrev pub AreTexts : List Bytes → Type 0
AreTexts [] = Unit
AreTexts (t ∷ ts) = IsText t × AreTexts ts

-- what the sender of a token writes of it
pub IsText-c_string : (t : Bytes) → IsText t → c_string (t ++ (0 ∷ [])) ≡ t
unfolding c_string
IsText-c_string [] h = refl
IsText-c_string (b ∷ bs) h =
    let more : (b == 0) ≡ false = ==_differ b 0 h.0 in rw (more, IsText-c_string bs h.1) refl

abbrev AreCut : Bytes × List Bytes → Type 0
AreCut p = IsText p.0 × AreTexts p.1

-- the words of some lines
abbrev pub all_words : Ctype → List Bytes → List Bytes
all_words ctype [] = []
all_words ctype (line ∷ lines) = words ctype line ++ all_words ctype lines

module _ (ctype : Ctype) (plain : IsPlain ctype) where
  open ctype use {isalnum, tolower}

  AreTexts-put_word :
      (t : Bytes) (ts : List Bytes) → IsText t → AreTexts ts → AreTexts (put_word t ts)
  AreTexts-put_word [] ts h k = k
  AreTexts-put_word (b ∷ bs) ts h k = (h, k)

  cut-AreCut : (bs : Bytes) → AreCut (cut ctype bs)
  cut-AreCut [] = (tt, tt)
  cut-AreCut (b ∷ bs) = with_first (isalnum b) refl (cut-AreCut bs)
    where
      with_first :
          (t : Bool)
          → isalnum b ≡ t
          → AreCut (cut ctype bs)
          → AreCut (
              if t
              then (tolower b ∷ (cut ctype bs).0, (cut ctype bs).1)
              else ([], put_word (cut ctype bs).0 (cut ctype bs).1))
      with_first true e h = ((plain b e, h.0), h.1)
      with_first false e h = (tt, AreTexts-put_word _ _ h.0 h.1)

  words-AreTexts : (bs : Bytes) → AreTexts (words ctype bs)
  words-AreTexts bs = AreTexts-put_word _ _ (cut-AreCut bs).0 (cut-AreCut bs).1

  AreTexts-append : (a b : List Bytes) → AreTexts a → AreTexts b → AreTexts (a ++ b)
  AreTexts-append [] b h k = k
  AreTexts-append (t ∷ a) b h k = (h.0, AreTexts-append a b h.1 k)

  pub all_words-AreTexts : (lines : List Bytes) → AreTexts (all_words ctype lines)
  all_words-AreTexts [] = tt
  all_words-AreTexts (line ∷ lines) =
      AreTexts-append (words ctype line) (all_words ctype lines) (words-AreTexts line)
        (all_words-AreTexts lines)

-- the pair of a word that the mapper emits, as it is sent
abbrev pub pair_of : Bytes → Bytes × Bytes
pair_of word = (c_string (word ++ (0 ∷ [])), [])

-- how often a text is among some
abbrev pub occurrences : Bytes → List Bytes → ℕ
occurrences t [] = 0
occurrences t (word ∷ rest) = (if same_text word t then 1 else 0) + occurrences t rest

abbrev hit : Bytes → Bytes × Bytes → ℕ
hit t p = if same_text (c_string p.0) (c_string t) then 1 else 0

abbrev tally : Bytes → List (Bytes × Bytes) → ℕ
tally t [] = 0
tally t (p ∷ ps) = hit t p + tally t ps

tally-values_for : (t : Bytes) (ps : List (Bytes × Bytes)) → length (values_for t ps) ≡ tally t ps
tally-values_for t [] = refl
tally-values_for t (p ∷ ps) = elim (Bool-cases (same_text (c_string p.0) (c_string t))) [
  | inl e ↦ rw e (omega (arith, tally-values_for t ps))
  | inr e ↦ rw e (omega (arith, tally-values_for t ps))
]

tally-Permᴰ : (t : Bytes) {ps qs : List (Bytes × Bytes)} → Permᴰ ps qs → tally t ps ≡ tally t qs
tally-Permᴰ t Permᴰ.nil = refl
tally-Permᴰ t (Permᴰ.cons e d) = omega (arith, ap (hit t) e, tally-Permᴰ t d)
tally-Permᴰ t (Permᴰ.swap e f) = omega (arith, ap (hit t) e, ap (hit t) f)
tally-Permᴰ t (Permᴰ.trans c d) = tally-Permᴰ t c ∙ tally-Permᴰ t d

tally-Perm : (t : Bytes) {ps qs : List (Bytes × Bytes)} → Perm ps qs → tally t ps ≡ tally t qs
tally-Perm t h = ∥∥₁_elim h (ℕ_set _ _) (tally-Permᴰ t)

tally-words :
    (t : Bytes) (ws : List Bytes)
    → AreTexts ws
    → tally t (map pair_of ws) ≡ occurrences (c_string t) ws
tally-words t [] h = refl
tally-words t (word ∷ ws) h =
    rw (c_string-c_string (word ++ (0 ∷ [])), IsText-c_string word h.0)
      (omega (arith, tally-words t ws h.1))

module _ {W : Type 0} ⦃os : Os W⦄ (law : Lawful os) (ctype : Ctype) where
  open law use {Fault, pending}

  -- Where the reducer is sent the pairs of the words of some lines, in any order, and the fuel exceeds
  -- their number, its table holds as many values under each text as that text is among the words;
  -- unless a call fails. No letter or digit is a terminator in lower case.
  pub collect-occurrences :
      (lines : List Bytes) (pairs : List (Bytes × Bytes)) (fuel : ℕ) (log_file : LogFile) (fd : ℕ)
      (w : W)
      → IsPlain ctype
      → Perm pairs (map pair_of (all_words ctype lines))
      → AreSized pairs
      → length pairs < fuel
      → pending fd w ≡ all_pairs pairs
      → Yields
          (λ c _.
            (t : Bytes)
            → length (lookup c.hash_table t) ≡ occurrences (c_string t) (all_words ctype lines))
          Fault
          (collect fuel log_file fd empty_table 0 w)
  collect-occurrences lines pairs fuel log_file fd w plain same sized enough front =
      Yields.mono
        (collect-Grouped law pairs fuel log_file fd empty_table 0 w sized enough refl front)
        λ c w' g t.
          ap (λ (vs : List Bytes). length vs) (g.groups t ∙ rw (lookup-empty_table t) refl)
          ∙ tally-values_for t pairs
          ∙ tally-Perm t same
          ∙ tally-words t (all_words ctype lines) (all_words-AreTexts ctype plain lines)
