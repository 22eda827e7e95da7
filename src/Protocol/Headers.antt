-- ===== src/Protocol/Headers.antt =====
-- The headers of src/protocol.h as they stand in memory on a 64-bit little-endian machine, and
-- objects that are read whole from a descriptor.
use mr_lib.Common.{
  ℕ, ◌<◌, ◌≡◌, refl, ap, sym, ◌∙◌, Bool, true, false, [], ◌∷◌, ◌++◌, append-nil, Bytes, of_bytes,
  size_limit, size_bytes, length-size_bytes, of_bytes-size_bytes, length, take, drop, length-append,
  take-append, drop-append, drop-eq-nil, take-nil, drop-nil, if◌then◌else◌, ◌==◌, arith,
}
use mr_lib.Os.{Os}
use mr_lib.Os.Io.{Io, pure, ◌>>=◌}
use mr_lib.Os.Lawful.{Lawful}
use mr_lib.Os.Yields
use mr_lib.Os.Yields.{Yields, returns}
use mr_lib.Protocol.Stream.{read_n}
use mr_lib.Protocol.Stream.Laws.{read_n-Took}

pub record FileNameHeader : Type 0 where
  pub file_name_length : ℕ

pub record LineHeader : Type 0 where
  pub eof : Bool
  pub line_length : ℕ

pub record PairHeader : Type 0 where
  pub token_length : ℕ
  pub value_length : ℕ

pub record ResultHeader : Type 0 where
  pub token_length : ℕ
  pub result_size : ℕ

unfoldable pub file_name_header_bytes : FileNameHeader → Bytes
file_name_header_bytes h = size_bytes h.file_name_length

unfoldable pub file_name_header_of : Bytes → FileNameHeader
file_name_header_of bs = record { file_name_length = of_bytes (take 8 bs) }

-- a `bool`, seven bytes of padding of any value, and the length
unfoldable pub line_header_bytes : LineHeader → Bytes → Bytes
line_header_bytes h padding = (if h.eof then 1 else 0) ∷ padding ++ size_bytes h.line_length

unfoldable pub line_header_of : Bytes → LineHeader
line_header_of [] = record { eof = false; line_length = 0 }
line_header_of (b ∷ bs) = record {
  eof = if b == 0 then false else true;
  line_length = of_bytes (take 8 (drop 7 bs));
}

unfoldable pub pair_header_bytes : PairHeader → Bytes
pair_header_bytes h = size_bytes h.token_length ++ size_bytes h.value_length

unfoldable pub pair_header_of : Bytes → PairHeader
pair_header_of bs = record {
  token_length = of_bytes (take 8 bs);
  value_length = of_bytes (take 8 (drop 8 bs));
}

unfoldable pub result_header_bytes : ResultHeader → Bytes
result_header_bytes h = size_bytes h.token_length ++ size_bytes h.result_size

unfoldable pub result_header_of : Bytes → ResultHeader
result_header_of bs = record {
  token_length = of_bytes (take 8 bs);
  result_size = of_bytes (take 8 (drop 8 bs));
}

size_front : (n : ℕ) (rest : Bytes) → n < size_limit → of_bytes (take 8 (size_bytes n ++ rest)) ≡ n
size_front n rest h =
    ap of_bytes (take-append 8 (size_bytes n) rest (length-size_bytes n)) ∙ of_bytes-size_bytes n h

size_whole : (n : ℕ) → n < size_limit → of_bytes (take 8 (size_bytes n)) ≡ n
size_whole n h =
    ap (λ (x : Bytes). of_bytes (take 8 x)) (sym (append-nil (size_bytes n))) ∙ size_front n [] h

pub length-file_name_header_bytes : (h : FileNameHeader) → length (file_name_header_bytes h) ≡ 8
length-file_name_header_bytes h =
    unfold file_name_header_bytes in length-size_bytes h.file_name_length

pub length-pair_header_bytes : (h : PairHeader) → length (pair_header_bytes h) ≡ 16
unfolding pair_header_bytes
length-pair_header_bytes h = omega (
  arith,
  length-append (size_bytes h.token_length) (size_bytes h.value_length),
  length-size_bytes h.token_length,
  length-size_bytes h.value_length,
)

pub length-result_header_bytes : (h : ResultHeader) → length (result_header_bytes h) ≡ 16
unfolding result_header_bytes
length-result_header_bytes h = omega (
  arith,
  length-append (size_bytes h.token_length) (size_bytes h.result_size),
  length-size_bytes h.token_length,
  length-size_bytes h.result_size,
)

pub length-line_header_bytes :
    (h : LineHeader) (padding : Bytes)
    → length padding ≡ 7
    → length (line_header_bytes h padding) ≡ 16
unfolding line_header_bytes
length-line_header_bytes h padding e =
    omega (arith, length-append padding (size_bytes h.line_length), length-size_bytes h.line_length)

pub file_name_header_of-bytes :
    (h : FileNameHeader)
    → h.file_name_length < size_limit
    → file_name_header_of (file_name_header_bytes h) ≡ h
unfolding file_name_header_bytes file_name_header_of
file_name_header_of-bytes h small =
    λ i. record { file_name_length = size_whole h.file_name_length small i }

-- The header of a pair whose lengths fit a `size_t` is read back from its bytes.
pub pair_header_of-bytes :
    (h : PairHeader)
    → h.token_length < size_limit
    → h.value_length < size_limit
    → pair_header_of (pair_header_bytes h) ≡ h
unfolding pair_header_bytes pair_header_of
pair_header_of-bytes h small small' = λ i. record {
  token_length = size_front h.token_length (size_bytes h.value_length) small i;
  value_length =
      (ap (λ (x : Bytes). of_bytes (take 8 x))
            (drop-append 8 (size_bytes h.token_length) (size_bytes h.value_length)
              (length-size_bytes _))
          ∙ size_whole h.value_length small')
        i;
}

-- The header of a result whose lengths fit a `size_t` is read back from its bytes.
pub result_header_of-bytes :
    (h : ResultHeader)
    → h.token_length < size_limit
    → h.result_size < size_limit
    → result_header_of (result_header_bytes h) ≡ h
unfolding result_header_bytes result_header_of
result_header_of-bytes h small small' = λ i. record {
  token_length = size_front h.token_length (size_bytes h.result_size) small i;
  result_size =
      (ap (λ (x : Bytes). of_bytes (take 8 x))
            (drop-append 8 (size_bytes h.token_length) (size_bytes h.result_size)
              (length-size_bytes _))
          ∙ size_whole h.result_size small')
        i;
}

eof_byte : (b : Bool) → ◌≡◌ {A = Bool} (if (if b then 1 else 0) == 0 then false else true) b
eof_byte true = refl
eof_byte false = refl

-- The header of a line whose length fits a `size_t` is read back from its bytes, whatever its seven bytes
-- of padding are.
pub line_header_of-bytes :
    (h : LineHeader) (padding : Bytes)
    → length padding ≡ 7
    → h.line_length < size_limit
    → line_header_of (line_header_bytes h padding) ≡ h
unfolding line_header_bytes line_header_of
line_header_of-bytes h padding e small = λ i. record {
  eof = eof_byte h.eof i;
  line_length =
      (ap (λ (x : Bytes). of_bytes (take 8 x)) (drop-append 7 padding (size_bytes h.line_length) e)
          ∙ size_whole h.line_length small)
        i;
}

module _ {W : Type 0} ⦃os : Os W⦄ where
  -- `read_n` into an object of `n` bytes: the count, and what the object holds then
  unfoldable pub read_object : (fd n : ℕ) → Io W (ℕ × Bytes)
  read_object fd n = do
    bs ← read_n fd n
    λ w. pure (length bs, bs ++ drop (length bs) (os.stale w n)) w

  module _ (law : Lawful os) where
    open law use {Fault, pending, sent, files, stale_size}

    pub record ReadWhole (fd : ℕ) (bs rest : Bytes) (w : W) (r : ℕ × Bytes) (w' : W) : Type 0 where
      pub count : r.0 ≡ length bs
      pub holds : r.1 ≡ bs
      pub left : pending fd w' ≡ rest
      pub kept : (to : ℕ) → sent to w' ≡ sent to w
      pub files_kept : files w' ≡ files w

    -- an object that is there whole is read whole
    pub read_object-whole :
        (fd n : ℕ) (bs rest : Bytes) (w : W)
        → length bs ≡ n
        → pending fd w ≡ bs ++ rest
        → Yields (ReadWhole fd bs rest w) Fault (read_object fd n w)
    unfolding read_object ◌>>=◌ pure
    read_object-whole fd n bs rest w size front = Yields.bind (read_n-Took law fd n w) λ got w' t.
        let all : got ≡ bs = t.bytes ∙ ap (take n) front ∙ take-append n bs rest size in
        returns (record {
          count = ap length all;
          holds =
              ap (λ (x : Bytes). x ++ drop (length x) (os.stale w' n)) all
              ∙ ap (λ (x : Bytes). bs ++ x)
                  (drop-eq-nil (length bs) (os.stale w' n) (omega (arith, stale_size w' n)))
              ∙ append-nil bs;
          left = t.rest ∙ ap (drop n) front ∙ drop-append n bs rest size;
          kept = t.kept;
          files_kept = t.files_kept;
        })

    -- at the end of file nothing is read
    pub read_object-end :
        (fd n : ℕ) (w : W)
        → pending fd w ≡ []
        → Yields
            (λ r w'.
              (r.0 ≡ 0)
              × (pending fd w' ≡ [])
              × (files w' ≡ files w)
              × ((to : ℕ) → sent to w' ≡ sent to w))
            Fault
            (read_object fd n w)
    unfolding read_object ◌>>=◌ pure
    read_object-end fd n w none_left = Yields.bind (read_n-Took law fd n w) λ got w' t. returns (
      ap length (t.bytes ∙ ap (take n) none_left ∙ take-nil n),
      t.rest ∙ ap (drop n) none_left ∙ drop-nil n,
      t.files_kept,
      t.kept,
    )
