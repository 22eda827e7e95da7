-- ===== src/Protocol/Lines/Laws.antt =====
-- What the receiver makes of the bytes of some files: their lines in order, each under the name of
-- its file and with its number, which starts at 1 in each file.
use mr_lib.Common.{
  ℕ, suc, ◌+◌, ◌%◌, ◌<◌, ◌≡◌, true, false, List, [], ◌∷◌, ◌++◌, Bytes, length, size_limit,
}
use mr_lib.Protocol.Headers.{file_name_header_bytes, line_header_bytes}
use mr_lib.Protocol.Lines.{MainReceiver, FileLine}

abbrev pub name_header : Bytes → Bytes
name_header name = file_name_header_bytes (record { file_name_length = length name })

abbrev pub line_header : Bytes → Bytes → Bytes
line_header l padding = line_header_bytes (record { eof = false; line_length = length l }) padding

abbrev pub eof_header : Bytes → Bytes
eof_header padding = line_header_bytes (record { eof = true; line_length = 0 }) padding

-- The bytes that stand for the lines of a file and its end; the padding of a header may be anything.
pub data LinesOn : List Bytes → Bytes → Type 0 where
  end : (padding : Bytes) → length padding ≡ 7 → LinesOn [] (eof_header padding)
  line :
      {ls : List Bytes} {bs : Bytes} (padding l : Bytes)
      → length padding ≡ 7
      → length l + 1 < size_limit
      → LinesOn ls bs
      → LinesOn (l ∷ ls) (line_header l padding ++ (l ++ bs))

-- the bytes that stand for some files, each a name and its lines
pub data FilesOn : List (Bytes × List Bytes) → Bytes → Type 0 where
  nil : FilesOn [] []
  file :
      {ls : List Bytes} {fs : List (Bytes × List Bytes)} {bs cs : Bytes} (name : Bytes)
      → length name + 1 < size_limit
      → LinesOn ls bs
      → FilesOn fs cs
      → FilesOn ((name, ls) ∷ fs) (name_header name ++ (name ++ (bs ++ cs)))

-- a line with the name of its file and its number
pub record Entry : Type 0 where
  pub name : Bytes
  pub number : ℕ
  pub text : Bytes

unfoldable pub numbered : Bytes → ℕ → List Bytes → List Entry
numbered name n [] = []
numbered name n (l ∷ ls) =
    record { name = name; number = n; text = l } ∷ numbered name ((n + 1) % size_limit) ls

unfoldable pub all_lines : List (Bytes × List Bytes) → List Entry
all_lines [] = []
all_lines ((name, ls) ∷ fs) = numbered name 1 ls ++ all_lines fs

pub record IsLine (e : Entry) (l : FileLine) : Type 0 where
  pub file_name : l.file_name.bytes ≡ e.name
  pub file_name_len : l.file_name_len ≡ length e.name
  pub line_number : l.line_number ≡ e.number
  pub line : l.line.bytes ≡ e.text
  pub line_len : l.line_len ≡ length e.text

-- the receiver is in the file `name`, before its line `n`
pub record Within (r : MainReceiver) (name : Bytes) (n : ℕ) : Type 0 where
  pub unfinished : r.file_finished ≡ false
  pub name_bytes : r.current_file_name.bytes ≡ name
  pub name_length : r.current_file_name_len ≡ length name
  pub small : length name + 1 < size_limit
  pub number : r.current_line_number ≡ n

-- With this receiver, and these bytes to read, these lines are to come; `k` more files end.
pub data Expects (r : MainReceiver) (pending : Bytes) : ℕ → List Entry → Type 0 where
  between :
      (fs : List (Bytes × List Bytes)) (k : ℕ) (todo : List Entry)
      → r.file_finished ≡ true
      → FilesOn fs pending
      → k ≡ length fs
      → todo ≡ all_lines fs
      → Expects r pending k todo
  within :
      (name : Bytes) (n : ℕ) (ls : List Bytes) (fs : List (Bytes × List Bytes)) (bs cs : Bytes)
      (k : ℕ) (todo : List Entry)
      → Within r name n
      → LinesOn ls bs
      → FilesOn fs cs
      → pending ≡ bs ++ cs
      → k ≡ suc (length fs)
      → todo ≡ numbered name n ls ++ all_lines fs
      → Expects r pending k todo
