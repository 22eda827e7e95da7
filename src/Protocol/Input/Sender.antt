-- ===== src/Protocol/Input/Sender.antt =====
-- send_input_to_mapper of src/protocol.c against a description of the input that shares no code with it.
use mr_lib.Common.{
  ℕ, zero, suc, ◌+◌, ◌-◌, ◌≤◌, ◌<◌, ◌≡◌, refl, ap, ◌∙◌, inl, inr, Bool, true, false, List, [], ◌∷◌,
  ◌++◌, map, Bytes, length, take, get_or, size_limit, arith, ◌==◌, ◌&&◌, ◌||◌, Bool-cases,
  ==_differ, if◌then◌else◌,
}
use mr_lib.Os.{Os}
use mr_lib.Os.Lawful.{Lawful, Files}
use mr_lib.Os.Yields
use mr_lib.Os.Yields.{Yields}
use mr_lib.Log.{LogFile}
use mr_lib.Protocol.Lines.Laws.{FilesOn}
use mr_lib.Protocol.Input.{chomp, same_text, join_path, send_input_to_mapper}
use mr_lib.Protocol.Input.Loop.{AreShort, Sent}
use mr_lib.Protocol.Input.Directory.{
  is_dots, files_in, Fit, contents, named_inputs, SentFiles, send_input_to_mapper-Named,
}

-- a line as `getline` reads it, but for a newline at its end
abbrev pub without_newline : Bytes → Bytes
without_newline l = if get_or l (length l - 1) 0 == b'\n' then take (length l - 1) l else l

chomp-newline : (l : Bytes) → chomp l ≡ without_newline l
unfolding chomp
chomp-newline [] = refl
chomp-newline (b ∷ []) = refl
chomp-newline (b ∷ c ∷ l) =
    let n = length l in
    let short : suc n - 1 ≡ n = omega arith in
    let long : suc (suc n) - 1 ≡ suc n = omega arith in
    ap (λ (m : Bytes). b ∷ m) (chomp-newline (c ∷ l))
    ∙ elim (Bool-cases (get_or (c ∷ l) n 0 == b'\n')) [
      | inl e ↦ rw (short, long, e) refl
      | inr e ↦ rw (short, long, e) refl
    ]

-- the two entries that every directory has
abbrev pub is_itself_or_parent : Bytes → Bool
is_itself_or_parent name =
    ((length name == 1) && (get_or name 0 0 == b'.'))
    || ((length name == 2) && ((get_or name 0 0 == b'.') && (get_or name 1 0 == b'.')))

dots-name : (name : Bytes) → is_dots name ≡ is_itself_or_parent name
unfolding same_text
dots-name [] = refl
dots-name (a ∷ []) = elim (Bool-cases (a == b'.')) [ inl e ↦ rw e refl | inr e ↦ rw e refl ]
dots-name (a ∷ b ∷ []) = elim (Bool-cases (a == b'.')) [
  | inl e ↦ elim (Bool-cases (b == b'.')) [ inl e' ↦ rw (e, e') refl | inr e' ↦ rw (e, e') refl ]
  | inr e ↦ rw e refl
]
dots-name (a ∷ b ∷ c ∷ l) =
    let n = suc (suc (suc (length l))) in
    let one : (n == 1) ≡ false = ==_differ n 1 (omega arith) in
    let two : (n == 2) ≡ false = ==_differ n 2 (omega arith) in
    elim (Bool-cases (a == b'.')) [
      | inl e ↦ elim (Bool-cases (b == b'.')) [
        | inl e' ↦ rw (one, two, e, e') refl
        | inr e' ↦ rw (one, two, e, e') refl
      ]
      | inr e ↦ rw (one, two, e) refl
    ]

-- the path of an entry, and whether it fits the buffer of PATH_MAX bytes with a zero behind it
abbrev pub child : (dir_path name : Bytes) → Bytes
child dir_path name = dir_path ++ (b'/' ∷ name)

abbrev pub NamesFit : (dir_path : Bytes) → List Bytes → Type 0
NamesFit dir_path [] = Unit
NamesFit dir_path (name ∷ names) = (length (child dir_path name) < 4096) × NamesFit dir_path names

take_all : (n : ℕ) (bs : Bytes) → length bs ≤ n → take n bs ≡ bs
take_all zero [] h = refl
take_all (suc n) [] h = refl
take_all zero (b ∷ bs) h = absurd (omega (arith, h))
take_all (suc n) (b ∷ bs) h = ap (λ (cs : Bytes). b ∷ cs) (take_all n bs (omega (arith, h)))

join_path-child :
    (dir_path name : Bytes)
    → length (child dir_path name) < 4096
    → join_path dir_path name ≡ child dir_path name
unfolding join_path
join_path-child dir_path name h = take_all 4095 (child dir_path name) (omega (arith, h))

-- the files that stand in a directory itself
abbrev pub files_of : (directory : Bytes → Bool) → (dir_path : Bytes) → List Bytes → List Bytes
files_of directory dir_path [] = []
files_of directory dir_path (name ∷ names) =
    if is_itself_or_parent name || directory (child dir_path name)
    then files_of directory dir_path names
    else child dir_path name ∷ files_of directory dir_path names

files_in-files_of :
    (directory : Bytes → Bool) (dir_path : Bytes) (names : List Bytes)
    → NamesFit dir_path names
    → files_in directory dir_path names ≡ files_of directory dir_path names
files_in-files_of directory dir_path [] h = refl
files_in-files_of directory dir_path (name ∷ names) h =
    rw
      (
        dots-name name,
        join_path-child dir_path name h.0,
        files_in-files_of directory dir_path names h.1,
      )
      refl

-- the files of an input: those in a directory, or the one file
abbrev pub inputs : Files → Bytes → List Bytes
inputs disk path =
    if disk.directory path then files_of disk.directory path (disk.names path) else path ∷ []

-- the lines of a file are short enough
abbrev pub LinesFit : List Bytes → Type 0
LinesFit [] = Unit
LinesFit (l ∷ ls) = (length (without_newline l) + 1 < size_limit) × LinesFit ls

-- those of each file are, and there are fewer than the fuel
abbrev pub FilesFit : (fuel : ℕ) → (lines : Bytes → List Bytes) → List Bytes → Type 0
FilesFit fuel lines [] = Unit
FilesFit fuel lines (path ∷ paths) =
    LinesFit (lines path) × (length (lines path) < fuel) × FilesFit fuel lines paths

LinesFit-AreShort : (ls : List Bytes) → LinesFit ls → AreShort ls
LinesFit-AreShort [] h = tt
LinesFit-AreShort (l ∷ ls) h = (rw (chomp-newline l) h.0, LinesFit-AreShort ls h.1)

FilesFit-Fit :
    (fuel : ℕ) (lines : Bytes → List Bytes) (paths : List Bytes)
    → FilesFit fuel lines paths
    → Fit fuel lines paths
FilesFit-Fit fuel lines [] h = tt
FilesFit-Fit fuel lines (path ∷ paths) h =
    (LinesFit-AreShort (lines path) h.0, h.1, FilesFit-Fit fuel lines paths h.2)

-- a file with its lines, each without its newline
abbrev pub described : (Bytes → List Bytes) → Bytes → Bytes × List Bytes
described lines path = (path, map without_newline (lines path))

contents-described : (lines : Bytes → List Bytes) → contents lines ≡ described lines
contents-described lines = λ i path. (path, map (λ l. chomp-newline l i) (lines path))

named_inputs-inputs :
    (disk : Files) (path : Bytes)
    → (disk.directory path ≡ true → NamesFit path (disk.names path))
    → named_inputs disk path ≡ inputs disk path
named_inputs-inputs disk path h = elim (Bool-cases (disk.directory path)) [
  | inl e ↦ rw (e, files_in-files_of disk.directory path (disk.names path) (h e)) refl
  | inr e ↦ rw e refl
]

module _ {W : Type 0} ⦃os : Os W⦄ (law : Lawful os) (log_file : LogFile) (fd : ℕ) where
  open law use {Fault, files}

  -- an encoding of these files, with all of their lines, has been sent
  abbrev pub SentInput : (Bytes → List Bytes) → List Bytes → W → W → Type 0
  SentInput lines paths w w' =
      (bs : Bytes) × FilesOn (map (described lines) paths) bs × Sent law fd bs w w'

  SentFiles-SentInput :
      (lines : Bytes → List Bytes) {paths paths' : List Bytes} (w w' : W)
      → paths ≡ paths'
      → SentFiles law log_file fd lines paths w w'
      → SentInput lines paths' w w'
  SentFiles-SentInput lines w w' e s = rw (e, contents-described lines) at s

  -- If the name of the input is short enough, and the names of its entries with it, each at most 4095
  -- bytes behind the name of the directory and a slash, and the lines of the files are, and the fuel is
  -- more than the number of lines in each, then the sender of an input writes an encoding of its files
  -- with their lines, each without the newline at its end: the one file, or the files of the directory
  -- in the order of its entries, but for `.`, `..` and directories. It leaves the disk as it was;
  -- unless a call fails.
  pub send_input_to_mapper-SentInput :
      (fuel : ℕ) (path : Bytes) (w : W)
      → length path + 1 < size_limit
      → ((files w).directory path ≡ true → NamesFit path ((files w).names path))
      → FilesFit fuel (files w).lines (inputs (files w) path)
      → Yields
          (λ _ w'. SentInput (files w).lines (inputs (files w) path) w w')
          Fault
          (send_input_to_mapper fuel log_file fd path w)
  send_input_to_mapper-SentInput fuel path w small named fit =
      let same = named_inputs-inputs (files w) path named in
      Yields.mono
        (send_input_to_mapper-Named law log_file fd fuel path w small
          (rw same (FilesFit-Fit fuel (files w).lines (inputs (files w) path) fit)))
        λ _ w' s. SentFiles-SentInput (files w).lines w w' same s
