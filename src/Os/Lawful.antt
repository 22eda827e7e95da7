-- ===== src/Os/Lawful.antt =====
-- What the code relies on of the calls, as a record of hypotheses. `pending fd` are the bytes that
-- can be read from a descriptor before the end of file, `sent fd` the bytes written to one.
-- `Fault` says that the environment may let calls fail: with `⊥` for it every call succeeds.
use mr_lib.Common.{
  ℕ, ◌≢◌, ◌≤◌, ◌<◌, ◌≡◌, refl, ◌∙◌, Bool, true, false, Option, none, some, [], ◌++◌, Bytes, length,
  take, ◌==◌, ◌&&◌, ltb, ◌⊎◌, ◌∷◌, map, List, if◌then◌else◌,
}
use mathlib.Core.Bool.{not}
use mr_lib.Os.{Request, Reply, NameList, Os}
use mr_lib.Os.Io.{need, succeed}
use mr_lib.Os.Yields.{Yields, returns, fails}

abbrev pub is_none {ℓ} : {A : Type ℓ} → Option A → Bool
is_none none = true
is_none (some _) = false

-- the replies that report an error; `malloc(0)` may be NULL
abbrev pub is_failure : (r : Request) → Reply r → Bool
is_failure (Request.read _ _) x = is_none x
is_failure (Request.write _ _) x = is_none x
is_failure (Request.malloc size) x = ltb 0 size && is_none x
is_failure (Request.realloc _ _) x = is_none x
is_failure (Request.strdup _) x = is_none x
is_failure (Request.free _) x = false
is_failure (Request.stat _) x = is_none x
is_failure (Request.scandir _) x = is_none x
is_failure (Request.fopen _ _) x = is_none x
is_failure (Request.getline _ _) x = false
is_failure (Request.ferror _) x = x
is_failure (Request.fwrite _ _ count _) n = not (n == count)
is_failure (Request.sem_open _) x = is_none x
is_failure Request.time x = is_none x
is_failure (Request.strftime _) x = false
is_failure Request.getpid x = false
is_failure (Request.fprintf _ _ _) x = not x
is_failure (Request.fputc _ _) x = not x
is_failure (Request.fflush _) x = not x
is_failure (Request.fclose _) x = not x
is_failure (Request.sem_wait _) x = not x
is_failure (Request.sem_post _) x = not x
is_failure (Request.sem_close _) x = not x
is_failure (Request.sem_unlink _) x = not x

-- the requests that open a stream or move data through a stream or a descriptor
abbrev pub is_transfer : Request → Bool
is_transfer (Request.read _ _) = true
is_transfer (Request.write _ _) = true
is_transfer (Request.fopen _ _) = true
is_transfer (Request.getline _ _) = true
is_transfer (Request.fwrite _ _ _ _) = true
is_transfer _ = false

-- those of them that go to a stream
abbrev pub is_stream : Request → Bool
is_stream (Request.fopen _ _) = true
is_stream (Request.getline _ _) = true
is_stream (Request.fwrite _ _ _ _) = true
is_stream _ = false

-- The file system and the open streams: the lines of a file, each with the newline that ends it;
-- whether a path is a directory, and the names in it; and for a stream the lines that are left to
-- read, whether reading it has failed, and the bytes that `fwrite` has put in.
pub record Files : Type 0 where
  pub lines : Bytes → List Bytes
  pub directory : Bytes → Bool
  pub names : Bytes → List Bytes
  pub unread : ℕ → List Bytes
  pub broken : ℕ → Bool
  pub stored : ℕ → Bytes

abbrev pub update {ℓ} : {A : Type ℓ} → ℕ → A → (ℕ → A) → ℕ → A
update f a g h = if f == h then a else g h

pub record Lawful {W : Type 0} (os : Os W) : Type 1 where
  pub Fault : Type 0
  pub pending : ℕ → W → Bytes
  pub sent : ℕ → W → Bytes
  pub files : W → Files
  pub fault : (r : Request) (w : W) → is_failure r (os.sys r w).0 ≡ true → Fault
  -- read(2): at most `n` bytes from the front, and none only at the end of file
  pub read_some :
      (fd n : ℕ) (w : W) (bs : Bytes)
      → (os.sys (Request.read fd n) w).0 ≡ some bs
      → (pending fd w ≡ bs ++ pending fd (os.sys (Request.read fd n) w).1)
        × (length bs ≤ n)
        × (0 < n → bs ≡ [] → pending fd w ≡ [])
  pub read_sent : (fd n to : ℕ) (w : W) → sent to (os.sys (Request.read fd n) w).1 ≡ sent to w
  pub read_files : (fd n : ℕ) (w : W) → files (os.sys (Request.read fd n) w).1 ≡ files w
  -- write(2): some of the bytes, at least one if there is one
  pub write_some :
      (fd : ℕ) (bs : Bytes) (w : W) (k : ℕ)
      → (os.sys (Request.write fd bs) w).0 ≡ some k
      → (sent fd (os.sys (Request.write fd bs) w).1 ≡ sent fd w ++ take k bs)
        × (k ≤ length bs)
        × (0 < length bs → 0 < k)
  pub write_pending :
      (fd from : ℕ) (bs : Bytes) (w : W)
      → pending from (os.sys (Request.write fd bs) w).1 ≡ pending from w
  pub write_files :
      (fd : ℕ) (bs : Bytes) (w : W) → files (os.sys (Request.write fd bs) w).1 ≡ files w
  pub stale_size : (w : W) (n : ℕ) → length (os.stale w n) ≡ n
  pub malloc_some : (size : ℕ) (w : W) (p : ℕ) → (os.sys (Request.malloc size) w).0 ≡ some p → p ≢ 0
  -- all other calls leave the descriptors alone
  pub frame :
      (r : Request)
      → is_transfer r ≡ false
      → (w : W) (fd : ℕ)
      → (pending fd (os.sys r w).1 ≡ pending fd w) × (sent fd (os.sys r w).1 ≡ sent fd w)
  pub frame_files : (r : Request) → is_transfer r ≡ false → (w : W) → files (os.sys r w).1 ≡ files w
  -- streams
  pub stream_frame :
      (r : Request)
      → is_stream r ≡ true
      → (w : W) (fd : ℕ)
      → (pending fd (os.sys r w).1 ≡ pending fd w) × (sent fd (os.sys r w).1 ≡ sent fd w)
  pub stat_some :
      (path : Bytes) (w : W) (b : Bool)
      → (os.sys (Request.stat path) w).0 ≡ some b
      → b ≡ (files w).directory path
  pub scandir_some :
      (path : Bytes) (w : W) (n : NameList)
      → (os.sys (Request.scandir path) w).0 ≡ some n
      → map (λ (e : ℕ × Bytes). e.1) n.entries ≡ (files w).names path
  pub fopen_read :
      (path : Bytes) (w : W) (f : ℕ)
      → (os.sys (Request.fopen path "r") w).0 ≡ some f
      → files (os.sys (Request.fopen path "r") w).1 ≡ record (files w) {
        unread = update f ((files w).lines path) (files w).unread;
        broken = update f false (files w).broken;
      }
  pub fopen_write :
      (path : Bytes) (w : W) (f : ℕ)
      → (os.sys (Request.fopen path "wb") w).0 ≡ some f
      → (files (os.sys (Request.fopen path "wb") w).1).stored f ≡ []
  -- a line that was read is not empty, and is gone from the stream
  pub getline_some :
      (f buffer : ℕ) (w : W) (l : Bytes)
      → (os.sys (Request.getline f buffer) w).0.1 ≡ some l
      → (0 < length l)
        × ((ls : List Bytes) × ((files w).unread f ≡ l ∷ ls)
            × (files (os.sys (Request.getline f buffer) w).1
                ≡ record (files w) { unread = update f ls (files w).unread }))
  -- no line: the file is at its end, or reading has failed and `ferror` will say so
  pub getline_none :
      (f buffer : ℕ) (w : W)
      → (os.sys (Request.getline f buffer) w).0.1 ≡ none
      → (((files w).unread f ≡ []) × (files (os.sys (Request.getline f buffer) w).1 ≡ files w))
        ⊎ (Fault × ((files (os.sys (Request.getline f buffer) w).1).broken f ≡ true))
  pub ferror_broken : (f : ℕ) (w : W) → (os.sys (Request.ferror f) w).0 ≡ (files w).broken f
  pub fwrite_all :
      (f size count : ℕ) (bs : Bytes) (w : W)
      → (os.sys (Request.fwrite f size count bs) w).0 ≡ count
      → (files (os.sys (Request.fwrite f size count bs) w).1).stored f ≡ (files w).stored f ++ bs

module _ {W : Type 0} {os : Os W} (law : Lawful os) where
  open law use {Fault, pending, sent, files, frame, frame_files}

  -- both ends of every descriptor, the files and the streams are as they were
  pub record Kept (w w' : W) : Type 0 where
    pub pending_kept : (fd : ℕ) → pending fd w' ≡ pending fd w
    pub sent_kept : (fd : ℕ) → sent fd w' ≡ sent fd w
    pub files_kept : files w' ≡ files w

  pub Kept-refl : (w : W) → Kept w w
  Kept-refl w = record { pending_kept = λ fd. refl; sent_kept = λ fd. refl; files_kept = refl }

  pub Kept-trans : {u v w : W} → Kept u v → Kept v w → Kept u w
  Kept-trans a b = record {
    pending_kept = λ fd. b.pending_kept fd ∙ a.pending_kept fd;
    sent_kept = λ fd. b.sent_kept fd ∙ a.sent_kept fd;
    files_kept = b.files_kept ∙ a.files_kept;
  }

  pub frame-Kept : (r : Request) → is_transfer r ≡ false → (w : W) → Kept w (os.sys r w).1
  frame-Kept r h w = record {
    pending_kept = λ fd. (frame r h w fd).0;
    sent_kept = λ fd. (frame r h w fd).1;
    files_kept = frame_files r h w;
  }

  -- a call that answers by an optional value, and is followed by a test for failure
  pub need-Yields :
      {A : Type 0} (x : Option A) (w : W) {Q : A → W → Type 0}
      → (is_none x ≡ true → Fault)
      → ((a : A) → x ≡ some a → Q a w)
      → Yields Q Fault (need x w)
  unfolding need
  need-Yields none w bad good = fails (bad refl)
  need-Yields (some a) w bad good = returns (good a refl)

  pub succeed-Yields :
      (x : Bool) (w : W) {Q : Unit {0} → W → Type 0}
      → (not x ≡ true → Fault)
      → Q tt w
      → Yields Q Fault (succeed x w)
  unfolding succeed
  succeed-Yields true w bad good = returns good
  succeed-Yields false w bad good = fails (bad refl)
