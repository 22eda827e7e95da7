-- ===== src/Protocol/Input/Directory.antt =====
-- send_input_to_mapper of src/protocol.c: a file, or the files of a directory.
use mr_lib.Common.{
  ℕ, ◌+◌, ◌<◌, ◌≡◌, refl, ap, sym, ◌∙◌, inl, inr, Bool, true, false, List, [], ◌∷◌, ◌++◌, map,
  append_assoc, append-nil, Bytes, length, length-take, size_limit, arith, if◌then◌else◌,
  Bool-cases, ◌||◌,
}
use mr_lib.Os.{Arg, Request, Os}
use mr_lib.Os.Io.{pure, ◌>>=◌, no_handler, syscall_ret, call, free, ignore}
use mr_lib.Os.Calls
use mr_lib.Os.Lawful.{Lawful, Files, Kept, Kept-trans, frame-Kept, need-Yields}
use mr_lib.Os.Yields
use mr_lib.Os.Yields.{Yields, returns, fails}
use mr_lib.Log.{LogFile, mr_log_warning}
use mr_lib.Log.Frame.{mr_log-Quiet}
use mr_lib.Os.Steady.{kept_frame, Settles-Later}
use mr_lib.Log.Steady.{mr_log-Steady}
use mr_lib.Protocol.Lines.Laws.{name_header, FilesOn, nil, file}
use mr_lib.Protocol.Input.{
  chomp, same_text, join_path, is_directory, send_entries, send_file_to_mapper,
  send_files_in_directory_to_mapper, send_input_to_mapper,
}
use mr_lib.Protocol.Input.Loop.{
  AreShort, SameDisk, SameDisk-of, Sent, Sent-append, Sent-before, Sent-after, info-Quiet,
}
use mr_lib.Protocol.Input.Laws.{SentFile, send_file_to_mapper-SentFile}

-- the encodings of some files one behind the other
FilesOn-append :
    {fs gs : List (Bytes × List Bytes)} {as_ bs : Bytes}
    → FilesOn fs as_
    → FilesOn gs bs
    → FilesOn (fs ++ gs) (as_ ++ bs)
FilesOn-append nil g = g
FilesOn-append {bs = ds} (file {ls} {fs} {bs} {cs} name small ls_on f) g =
    rw
      (
        append_assoc (name_header name) (name ++ (bs ++ cs)) ds,
        append_assoc name (bs ++ cs) ds,
        append_assoc bs cs ds,
      )
      (file name small ls_on (FilesOn-append f g))

-- the entries `.` and `..`
abbrev pub is_dots : Bytes → Bool
is_dots name = same_text name (b'.' ∷ []) || same_text name (b'.' ∷ b'.' ∷ [])

-- the files in a directory that are sent: not `.`, not `..`, and no directories
abbrev pub files_in : (directory : Bytes → Bool) → (dir_path : Bytes) → List Bytes → List Bytes
files_in directory dir_path [] = []
files_in directory dir_path (name ∷ names) =
    if is_dots name || directory (join_path dir_path name)
    then files_in directory dir_path names
    else join_path dir_path name ∷ files_in directory dir_path names

-- the lines of each file are short enough, and fewer than the fuel
abbrev pub Fit : (fuel : ℕ) → (lines : Bytes → List Bytes) → List Bytes → Type 0
Fit fuel lines [] = Unit
Fit fuel lines (path ∷ paths) =
    AreShort (lines path) × (length (lines path) < fuel) × Fit fuel lines paths

-- a file with its lines, as a receiver gets them
abbrev pub contents : (Bytes → List Bytes) → Bytes → Bytes × List Bytes
contents lines path = (path, map chomp (lines path))

join_path-short : (dir_path name : Bytes) → length (join_path dir_path name) + 1 < size_limit
unfolding join_path
join_path-short dir_path name = omega (arith, length-take 4095 (dir_path ++ (b'/' ∷ name)))

-- the files of an input, as the code names them
abbrev pub named_inputs : Files → Bytes → List Bytes
named_inputs disk path =
    if disk.directory path then files_in disk.directory path (disk.names path) else path ∷ []

module _ {W : Type 0} ⦃os : Os W⦄ (law : Lawful os) (log_file : LogFile) (fd : ℕ) where
  open law use {Fault, fault, pending, sent, files, stat_some, scandir_some}

  -- an encoding of these files has been sent
  abbrev pub SentFiles : (Bytes → List Bytes) → List Bytes → W → W → Type 0
  SentFiles lines paths w w' =
      (bs : Bytes) × FilesOn (map (contents lines) paths) bs × Sent law fd bs w w'

  SentFiles-before :
      (lines : Bytes → List Bytes) (paths : List Bytes) (u v w : W)
      → Kept law u v
      → SentFiles lines paths v w
      → SentFiles lines paths u w
  SentFiles-before lines paths u v w k (bs, on, s) = (bs, on, Sent-before law fd bs u v w k s)

  SentFiles-more :
      (lines : Bytes → List Bytes) (path : Bytes) (paths : List Bytes) (u v w : W)
      → SentFile law log_file fd path (lines path) u v
      → SentFiles lines paths v w
      → SentFiles lines (path ∷ paths) u w
  SentFiles-more lines path paths u v w (as_, f, s) (bs, on, t) =
      (as_ ++ bs, FilesOn-append f on, Sent-append law fd as_ bs u v w s t)

  is_directory-Yields :
      (path : Bytes) (w : W)
      → Yields
          (λ b w'. (b ≡ (files w).directory path) × Kept law w w')
          Fault
          (is_directory log_file path w)
  unfolding is_directory Calls.stat ◌>>=◌ call syscall_ret
  is_directory-Yields path w = Yields.handle _ (
      need-Yields law (os.sys (Request.stat path) w).0 _ (fault (Request.stat path) w)
        λ b e. (stat_some path w b e, frame-Kept law (Request.stat path) refl w))

  -- the disk that an input stands on
  record Disk (lines : Bytes → List Bytes) (directory : Bytes → Bool) (w : W) : Type 0 where
    lines_of : (files w).lines ≡ lines
    directory_of : (files w).directory ≡ directory

  Disk-Same :
      {lines : Bytes → List Bytes} {directory : Bytes → Bool} {v w : W}
      → SameDisk law v w
      → Disk lines directory v
      → Disk lines directory w
  Disk-Same s d = record {
    lines_of = s.lines ∙ d.lines_of;
    directory_of = s.directory ∙ d.directory_of;
  }

  Disk-Kept :
      {lines : Bytes → List Bytes} {directory : Bytes → Bool} {v w : W}
      → Kept law v w
      → Disk lines directory v
      → Disk lines directory w
  Disk-Kept k d = Disk-Same (SameDisk-of law k.files_kept) d

  warning-Kept :
      (path dir_path : Bytes) (w : W)
      → Kept law w (
          mr_log_warning log_file "Main" "Main" "Skipping directory '%s' in input directory '%s'"
            (Arg.bytes path ∷ Arg.bytes dir_path ∷ [])
            w)
  unfolding ignore
  warning-Kept path dir_path w =
      Settles-Later (kept_frame law) ((mr_log-Steady (kept_frame law) log_file _ _ _ _ _).at w)

  -- the loop over the entries of a directory
  send_entries-SentFiles :
      (fuel : ℕ) (dir_path : Bytes) (es : List (ℕ × Bytes)) (table : ℕ) (lines : Bytes → List Bytes)
      (directory : Bytes → Bool) (w : W)
      → Disk lines directory w
      → Fit fuel lines (files_in directory dir_path (map (λ (e : ℕ × Bytes). e.1) es))
      → Yields
          (λ _ w'.
            SentFiles lines (files_in directory dir_path (map (λ (e : ℕ × Bytes). e.1) es)) w w')
          Fault
          (send_entries fuel log_file fd dir_path es table w)
  unfolding send_entries ◌>>=◌ pure syscall_ret free
  send_entries-SentFiles fuel dir_path [] table lines directory w disk fit =
      let k = frame-Kept law (Request.free table) refl w in
      returns (
        [],
        nil,
        record {
          added = k.sent_kept fd ∙ sym (append-nil (sent fd w));
          disk = SameDisk-of law k.files_kept;
        },
      )
  send_entries-SentFiles fuel dir_path (e ∷ es) table lines directory w disk fit =
      elim (Bool-cases (is_dots e.1)) [
        | inl dots ↦
            let fit' = rw dots at fit in
            rw dots (
              let k = frame-Kept law (Request.free e.0) refl w in
              Yields.mono
                (send_entries-SentFiles fuel dir_path es table lines directory _ (Disk-Kept k disk)
                  fit')
                λ _ w' s. SentFiles-before lines _ w _ w' k s)
        | inr other ↦
            let path = join_path dir_path e.1 in
            elim (Bool-cases (directory path)) [
              | inl is_dir ↦
                  let fit' = rw (other, is_dir) at fit in
                  rw (other, is_dir)
                    (Yields.bind (Yields.handle _ (is_directory-Yields path w)) λ b w₁ q.
                      let known : b ≡ true =
                        q.0 ∙ ap (λ (d : Bytes → Bool). d path) disk.directory_of ∙ is_dir in
                      rw known (
                        let k = Kept-trans law q.1 (
                          Kept-trans law (warning-Kept path dir_path w₁)
                            (frame-Kept law (Request.free e.0) refl _)) in
                        Yields.mono
                          (send_entries-SentFiles fuel dir_path es table lines directory _
                            (Disk-Kept k disk) fit')
                          λ _ w' s. SentFiles-before lines _ w _ w' k s))
              | inr is_file ↦
                  let fit' = rw (other, is_file) at fit in
                  rw (other, is_file)
                    (Yields.bind (Yields.handle _ (is_directory-Yields path w)) λ b w₁ q.
                      let known : b ≡ false =
                        q.0 ∙ ap (λ (d : Bytes → Bool). d path) disk.directory_of ∙ is_file in
                      let disk₁ = Disk-Kept q.1 disk in
                      let here : (files w₁).lines path ≡ lines path =
                        ap (λ (l : Bytes → List Bytes). l path) disk₁.lines_of in
                      rw known (
                        Yields.bind
                          (Yields.handle _ (
                            send_file_to_mapper-SentFile law log_file fd fuel path w₁
                              (join_path-short dir_path e.1) (rw here fit'.0) (rw here fit'.1)))
                          λ _ w₂ f.
                            let k = frame-Kept law (Request.free e.0) refl w₂ in
                            let disk₂ = Disk-Kept k (Disk-Same f.2.disk disk₁) in
                            Yields.mono
                              (send_entries-SentFiles fuel dir_path es table lines directory _ disk₂
                                fit'.2)
                              λ _ w' s.
                                SentFiles-before lines
                                  (path
                                    ∷ files_in directory dir_path (map (λ (x : ℕ × Bytes). x.1) es))
                                  w w₁ w' q.1
                                  (SentFiles-more lines path _ w₁ w₂ w' (rw here at f)
                                    (SentFiles-before lines _ w₂ _ w' k s))))
            ]
      ]

  SentFiles-after :
      (lines : Bytes → List Bytes) (paths : List Bytes) (u v w : W)
      → SentFiles lines paths u v
      → Kept law v w
      → SentFiles lines paths u w
  SentFiles-after lines paths u v w (bs, on, s) k = (bs, on, Sent-after law fd bs u v w s k)

  scandir-Yields :
      (path : Bytes) (w : W)
      → Yields
          (λ n w'. (map (λ (e : ℕ × Bytes). e.1) n.entries ≡ (files w).names path) × Kept law w w')
          Fault
          (Calls.scandir path w)
  unfolding Calls.scandir ◌>>=◌ call
  scandir-Yields path w =
      need-Yields law (os.sys (Request.scandir path) w).0 _ (fault (Request.scandir path) w)
        λ n e. (scandir_some path w n e, frame-Kept law (Request.scandir path) refl w)

  send_files_in_directory_to_mapper-SentFiles :
      (fuel : ℕ) (path : Bytes) (lines : Bytes → List Bytes) (directory : Bytes → Bool)
      (names : List Bytes) (w : W)
      → Disk lines directory w
      → (files w).names path ≡ names
      → Fit fuel lines (files_in directory path names)
      → Yields
          (λ _ w'. SentFiles lines (files_in directory path names) w w')
          Fault
          (send_files_in_directory_to_mapper fuel log_file fd path w)
  unfolding send_files_in_directory_to_mapper ◌>>=◌ syscall_ret
  send_files_in_directory_to_mapper-SentFiles fuel path lines directory names w disk named fit =
      Yields.bind ((info-Quiet law log_file fd _ _).at w) λ _ w₁ k₁.
        Yields.bind (Yields.handle _ (scandir-Yields path w₁)) λ n w₂ q.
          Yields.bind (Yields.handle _ ((mr_log-Quiet law log_file _ _ _ _ _).at w₂)) λ _ w₃ k₃.
            let k = Kept-trans law k₁ (Kept-trans law q.1 k₃) in
            let all : map (λ (e : ℕ × Bytes). e.1) n.entries ≡ names =
              q.0 ∙ ap (λ (f : Files). f.names path) k₁.files_kept ∙ named in
            Yields.bind
              (send_entries-SentFiles fuel path n.entries n.table lines directory w₃
                (Disk-Kept k disk) (rw all fit))
              λ _ w₄ s. Yields.mono ((info-Quiet law log_file fd _ _).at w₄) λ _ w₅ k₅.
                SentFiles-after lines _ w w₄ w₅ (SentFiles-before lines _ w w₃ w₄ k (rw all at s))
                  k₅

  -- the sender of an input, with the code's own names and lines
  pub send_input_to_mapper-Named :
      (fuel : ℕ) (path : Bytes) (w : W)
      → length path + 1 < size_limit
      → Fit fuel (files w).lines (named_inputs (files w) path)
      → Yields
          (λ _ w'. SentFiles (files w).lines (named_inputs (files w) path) w w')
          Fault
          (send_input_to_mapper fuel log_file fd path w)
  unfolding send_input_to_mapper ◌>>=◌ syscall_ret
  send_input_to_mapper-Named fuel path w small fit =
      Yields.bind (Yields.handle _ (is_directory-Yields path w)) λ b w₁ q.
        Yields.bind ((info-Quiet law log_file fd _ _).at w₁) λ _ w₂ k₂.
          Yields.bind (either b w₂ (q.0) (Kept-trans law q.1 k₂)) λ _ w₃ s.
            Yields.mono ((info-Quiet law log_file fd _ _).at w₃)
              λ _ w₄ k₄. SentFiles-after (files w).lines _ w w₃ w₄ s k₄
    where
      either :
          (b : Bool) (v : W)
          → b ≡ (files w).directory path
          → Kept law w v
          → Yields
              (λ _ w'. SentFiles (files w).lines (named_inputs (files w) path) w w')
              Fault
              ((if b
                  then syscall_ret
                      (send_files_in_directory_to_mapper fuel log_file fd path)
                      no_handler
                  else syscall_ret (send_file_to_mapper fuel log_file fd path) no_handler)
                v)
      either true v e k =
          let is_dir = sym e in
          let fit' = rw is_dir at fit in
          rw is_dir (
            Yields.mono
              (Yields.handle no_handler (
                send_files_in_directory_to_mapper-SentFiles fuel path (files w).lines
                  (files w).directory ((files w).names path) v
                  (Disk-Kept k (record { lines_of = refl; directory_of = refl }))
                  (ap (λ (f : Files). f.names path) k.files_kept) fit'))
              λ _ w' s. SentFiles-before (files w).lines _ w v w' k s)
      either false v e k =
          let is_file = sym e in
          let fit' = rw is_file at fit in
          let here : (files v).lines path ≡ (files w).lines path =
            ap (λ (f : Files). f.lines path) k.files_kept in
          rw is_file (
            Yields.mono
              (Yields.handle no_handler (
                send_file_to_mapper-SentFile law log_file fd fuel path v small (rw here fit'.0)
                  (rw here fit'.1)))
              λ _ w' s. SentFiles-before (files w).lines (path ∷ []) w v w' k (rw here at s))
