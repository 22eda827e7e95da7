-- ===== src/Tests/Machine.antt =====
-- A machine on which no call fails: reads bring three bytes at most and writes take two. Every
-- descriptor reads one input and writes one output.
use Prim.Native.Nat.{min}
use text.Mathlib.Text.{◌==◌ as str_eq}
use mathlib.Core.Path.{fun_ext}
use mr_lib.Common.{
  ℕ, ◌≤◌, ◌<◌, ◌≡◌, refl, ap, sym, inl, inr, Bool, true, false, Option, none, some, List, [], ◌∷◌,
  ◌++◌, map, Bytes, length, take, drop, replicate, length-replicate, take-append-drop, length-take,
  ◌==◌, ==_refl, Bool-cases, arith, if◌then◌else◌,
}
use mr_lib.Os.{Request, Reply, NameList, Os}
use mr_lib.Os.Lawful.{Lawful, Files, update, is_failure, is_transfer, is_stream}

-- A line is never empty: it is its first byte and the others.
pub record Machine : Type 0 where
  pub input : Bytes
  pub output : Bytes
  pub lines : Bytes → List (ℕ × Bytes)
  pub unread : ℕ → List (ℕ × Bytes)
  pub stored : ℕ → Bytes

abbrev pub directory : Bytes → Bool
directory [] = true
directory (_ ∷ _) = false

abbrev pub names : Bytes → List Bytes
names _ = (b'.' ∷ []) ∷ (b'a' ∷ []) ∷ []

abbrev pub whole : ℕ × Bytes → Bytes
whole (b, l) = b ∷ l

abbrev pub next_line : Machine → ℕ → ℕ → List (ℕ × Bytes) → (ℕ × Option Bytes) × Machine
next_line m f buffer [] = ((buffer, none), m)
next_line m f buffer (l ∷ ls) =
    ((buffer, some (whole l)), record m { unread = update f ls m.unread })

abbrev pub answer : (r : Request) → Machine → Reply r × Machine
answer (Request.read fd n) m =
    (some (take (min n 3) m.input), record m { input = drop (min n 3) m.input })
answer (Request.write fd bs) m =
    (some (min (length bs) 2), record m { output = m.output ++ take (min (length bs) 2) bs })
answer (Request.malloc _) m = (some 1, m)
answer (Request.realloc _ _) m = (some 1, m)
answer (Request.strdup _) m = (some 1, m)
answer (Request.free _) m = (tt, m)
answer (Request.stat path) m = (some (directory path), m)
answer (Request.scandir path) m =
    (some (record { table = 1; entries = map (λ n. (1, n)) (names path) }), m)
answer (Request.fopen path mode) m = (
  some 1,
  if str_eq mode "r"
      then record m { unread = update 1 (m.lines path) m.unread }
      else record m { stored = update 1 [] m.stored },
)
answer (Request.getline f buffer) m = next_line m f buffer (m.unread f)
answer (Request.ferror _) m = (false, m)
answer (Request.fwrite f _ count bs) m =
    (count, record m { stored = update f (m.stored f ++ bs) m.stored })
answer (Request.sem_open _) m = (some 1, m)
answer Request.time m = (some 0, m)
answer (Request.strftime _) m = (some [], m)
answer Request.getpid m = (1, m)
answer (Request.fprintf _ _ _) m = (true, m)
answer (Request.fputc _ _) m = (true, m)
answer (Request.fflush _) m = (true, m)
answer (Request.fclose _) m = (true, m)
answer (Request.sem_wait _) m = (true, m)
answer (Request.sem_post _) m = (true, m)
answer (Request.sem_close _) m = (true, m)
answer (Request.sem_unlink _) m = (true, m)

instance abbrev pub machine_os : Os Machine
machine_os = record { sys = answer; stale = λ m n. replicate n 7 }

abbrev pub machine_files : Machine → Files
machine_files m = record {
  lines = λ path. map whole (m.lines path);
  directory = directory;
  names = names;
  unread = λ f. map whole (m.unread f);
  broken = λ _. false;
  stored = m.stored;
}

pub no_failure : (r : Request) (m : Machine) → is_failure r (answer r m).0 ≡ true → ⊥
no_failure (Request.read _ _) m h = cc
no_failure (Request.fwrite _ _ count _) m h = ground arith
no_failure (Request.malloc _) m h = ground arith
no_failure _ m h = cc

pub files_frame :
    (r : Request)
    → is_transfer r ≡ false
    → (m : Machine) → machine_files (answer r m).1 ≡ machine_files m
files_frame (Request.read _ _) h m = cc
files_frame (Request.write _ _) h m = cc
files_frame (Request.fopen _ _) h m = cc
files_frame (Request.getline _ _) h m = cc
files_frame (Request.fwrite _ _ _ _) h m = cc
files_frame _ h m = refl

pub pipes_frame :
    (r : Request)
    → is_transfer r ≡ false
    → (m : Machine) (fd : ℕ) → ((answer r m).1.input ≡ m.input) × ((answer r m).1.output ≡ m.output)
pipes_frame (Request.read _ _) h m fd = cc
pipes_frame (Request.write _ _) h m fd = cc
pipes_frame (Request.fopen _ _) h m fd = cc
pipes_frame (Request.getline _ _) h m fd = cc
pipes_frame (Request.fwrite _ _ _ _) h m fd = cc
pipes_frame _ h m fd = (refl, refl)

pub next_line-pipes :
    (m : Machine) (f buffer : ℕ) (ls : List (ℕ × Bytes))
    → ((next_line m f buffer ls).1.input ≡ m.input)
      × ((next_line m f buffer ls).1.output ≡ m.output)
next_line-pipes m f buffer [] = (refl, refl)
next_line-pipes m f buffer (l ∷ ls) = (refl, refl)

pub stream_frame :
    (r : Request)
    → is_stream r ≡ true
    → (m : Machine) (fd : ℕ) → ((answer r m).1.input ≡ m.input) × ((answer r m).1.output ≡ m.output)
stream_frame (Request.fopen path mode) h m fd = elim (Bool-cases (str_eq mode "r")) [
  | inl e ↦ (rw e, rw e)
  | inr e ↦ (rw e, rw e)
]
stream_frame (Request.getline f buffer) h m fd = next_line-pipes m f buffer (m.unread f)
stream_frame (Request.fwrite _ _ _ _) h m fd = (refl, refl)
stream_frame _ h m fd = cc

pub next_line-some :
    (m : Machine) (f buffer : ℕ) (rest : List (ℕ × Bytes)) (l : Bytes)
    → m.unread f ≡ rest
    → (next_line m f buffer rest).0.1 ≡ some l
    → (0 < length l)
      × ((ls : List Bytes) × (map whole (m.unread f) ≡ l ∷ ls)
          × (machine_files (next_line m f buffer rest).1
              ≡ record (machine_files m) { unread = update f ls (machine_files m).unread }))
next_line-some m f buffer [] l u e = cc
next_line-some m f buffer ((b, r) ∷ rest) l u e =
    let same : b ∷ r ≡ l = ground arith in
    rw (← same) (
      omega arith,
      (map whole rest, ap (map whole) u, λ i. record (machine_files m) { unread = updated i }),
    )
  where
    updated :
        ◌≡◌ {A = ℕ → List Bytes}
          (λ h. map whole (update f rest m.unread h))
          (update f (map whole rest) (λ h. map whole (m.unread h)))
    updated = fun_ext λ h. elim (Bool-cases (f == h)) [ inl e' ↦ rw e' | inr e' ↦ rw e' ]

pub next_line-none :
    (m : Machine) (f buffer : ℕ) (rest : List (ℕ × Bytes))
    → m.unread f ≡ rest
    → (next_line m f buffer rest).0.1 ≡ none
    → (map whole (m.unread f) ≡ [])
      × (machine_files (next_line m f buffer rest).1 ≡ machine_files m)
next_line-none m f buffer [] u e = (ap (map whole) u, refl)
next_line-none m f buffer (l ∷ rest) u e = cc

pub fopen_read :
    (path : Bytes) (m : Machine) (f : ℕ)
    → ◌≡◌ {A = Option ℕ} (some 1) (some f)
    → machine_files (answer (Request.fopen path "r") m).1 ≡ record (machine_files m) {
      unread = update f (map whole (m.lines path)) (machine_files m).unread;
      broken = update f false (machine_files m).broken;
    }
fopen_read path m f e =
    let e' : 1 ≡ f = ground arith in
    rw (← e') (λ i. record (machine_files m) { unread = opened i; broken = sound i })
  where
    opened :
        ◌≡◌ {A = ℕ → List Bytes}
          (λ h. map whole (update 1 (m.lines path) m.unread h))
          (update 1 (map whole (m.lines path)) (λ h. map whole (m.unread h)))
    opened = fun_ext λ h. elim (Bool-cases (1 == h)) [ inl e' ↦ rw e' | inr e' ↦ rw e' ]

    sound : ◌≡◌ {A = ℕ → Bool} (λ _. false) (update 1 false (λ _. false))
    sound = fun_ext λ h. elim (Bool-cases (1 == h)) [ inl e' ↦ rw e' | inr e' ↦ rw e' ]

pub read_front :
    (n : ℕ) (xs bs : Bytes)
    → take (min n 3) xs ≡ bs
    → (xs ≡ bs ++ drop (min n 3) xs) × (length bs ≤ n) × (0 < n → bs ≡ [] → xs ≡ [])
read_front n xs bs e = rw (← e) (
  sym (take-append-drop (min n 3) xs),
  omega (arith, length-take (min n 3) xs),
  λ pos none_read. nothing xs (omega (arith, length-take (min n 3) xs, ap length none_read)),
)
  where
    nothing : (ys : Bytes) → length ys ≡ 0 → ys ≡ []
    nothing [] h = refl
    nothing (y ∷ ys) h = absurd (omega arith)

unfoldable pub machine_law : Lawful machine_os
machine_law = record {
  Fault = ⊥;
  pending = λ fd m. m.input;
  sent = λ fd m. m.output;
  files = machine_files;
  fault = no_failure;
  read_some = λ fd n m bs e. read_front n m.input bs (ground arith);
  read_sent = λ fd n to m. refl;
  read_files = λ fd n m. refl;
  write_some = λ fd bs m k e.
      let e' : min (length bs) 2 ≡ k = ground arith in
      rw (← e') (refl, omega arith, λ h. omega arith);
  write_pending = λ fd from bs m. refl;
  write_files = λ fd bs m. refl;
  stale_size = λ m n. length-replicate n 7;
  malloc_some = λ size m p e. ground arith;
  frame = pipes_frame;
  frame_files = files_frame;
  stream_frame = stream_frame;
  stat_some = λ path m b e. ground arith;
  scandir_some = λ path m n e.
      ap
        (λ (x : Option NameList). elim x [
          | none ↦ []
          | some y ↦ map (λ (e : ℕ × Bytes). e.1) y.entries
        ])
        (sym e);
  fopen_read = fopen_read;
  fopen_write = λ path m f e. let e' : 1 ≡ f = ground arith in rw (← e');
  getline_some = λ f buffer m l e. next_line-some m f buffer (m.unread f) l refl e;
  getline_none = λ f buffer m e. inl (next_line-none m f buffer (m.unread f) refl e);
  ferror_broken = λ f m. refl;
  fwrite_all = λ f size count bs m e. let here : (f == f) ≡ true = ==_refl f in rw here;
}
