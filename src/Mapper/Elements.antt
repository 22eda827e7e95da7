-- ===== src/Mapper/Elements.antt =====
-- Lines as elements of the queue of src/mapper.c.
use mr_lib.Common.{
  ℕ, ◌+◌, ◌<◌, ◌≡◌, ap, sym, ◌∙◌, [], ◌++◌, Bytes, take, drop, take-append, drop-append, drop-drop,
  of_bytes, size_bytes, of_bytes-size_bytes, length-size_bytes, size_limit, append-nil,
}
use mr_lib.Protocol.Lines.{FileLine}
use mr_lib.Mapper.{line_bytes, line_at, field}

-- numbers of 8 bytes, read one after the other
last : (n : ℕ) → n < size_limit → field 0 (size_bytes n) ≡ n
last n small =
    ap (field 0) (sym (append-nil (size_bytes n)))
    ∙ rw (take-append 8 (size_bytes n) [] (length-size_bytes n)) (of_bytes-size_bytes n small)

next : (k n : ℕ) (rest : Bytes) → field (8 + k) (size_bytes n ++ rest) ≡ field k rest
next k n rest =
    ap (λ (bs : Bytes). of_bytes (take 8 bs))
      (sym (drop-drop 8 k (size_bytes n ++ rest))
        ∙ ap (drop k) (drop-append 8 (size_bytes n) rest (length-size_bytes n)))

pub line_len-line_at :
    (text_at : ℕ → Bytes) (line : FileLine)
    → line.line_len < size_limit
    → (line_at text_at (line_bytes line)).line_len ≡ line.line_len
unfolding line_at line_bytes
line_len-line_at text_at line small =
    next 24 line.file_name.address _
    ∙ next 16 line.file_name_len _
    ∙ next 8 line.line_number _
    ∙ next 0 line.line.address _
    ∙ last _ small
