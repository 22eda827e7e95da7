-- ===== src/Protocol/Input.antt =====
-- The sender of lines in the main process: a file, or the files of a directory.
pub mod Loop
pub mod Laws
pub mod Directory
pub mod Sender
use Prim.Native.String.{String}
use mr_lib.Common.{
  ℕ, zero, suc, ◌-◌, Bool, true, false, Option, none, some, List, [], ◌∷◌, ◌++◌, Bytes, length,
  take, ◌==◌, ◌&&◌, ◌||◌, if◌then◌else◌,
}
use mr_lib.Os.{Arg, Request, Os}
use mr_lib.Os.Io.{
  Io, pure, failed, ◌>>=◌, ◌>>◌, Handler, no_handler, ◌then_do◌, syscall_ret, call, free, ignore,
}
use mr_lib.Os.Calls
use mr_lib.Log.{LogFile, mr_log_info, mr_log_warning, mr_log_error}
use mr_lib.Protocol.Stream.{write_n, out_of_fuel}
use mr_lib.Protocol.Headers.{FileNameHeader, LineHeader, file_name_header_bytes, line_header_bytes}
use mr_lib.Protocol.Pair.{write_some}

-- `if (buffer[line_len - 1] == '\n') line_len--`
unfoldable pub chomp : Bytes → Bytes
chomp [] = []
chomp (b ∷ []) = if b == b'\n' then [] else b ∷ []
chomp (b ∷ c ∷ l) = b ∷ chomp (c ∷ l)

-- `strcmp(a, b) == 0`
unfoldable pub same_text : Bytes → Bytes → Bool
same_text [] [] = true
same_text [] (_ ∷ _) = false
same_text (_ ∷ _) [] = false
same_text (a ∷ as') (b ∷ bs) = (a == b) && same_text as' bs

abbrev pub path_max : ℕ
path_max = 4096

-- `snprintf(full_path, PATH_MAX, "%s/%s", dir_path, name)`
unfoldable pub join_path : (dir_path name : Bytes) → Bytes
join_path dir_path name = take (path_max - 1) (dir_path ++ (b'/' ∷ name))

module _ {W : Type 0} ⦃os : Os W⦄ where
  main_error : LogFile → String → Bytes → Handler W
  main_error log_file message path =
      mr_log_error log_file "Main" "Main" message (Arg.bytes path ∷ [])

  pub main_info : LogFile → String → List Arg → Io W (Unit {0})
  main_info log_file message args =
      syscall_ret (mr_log_info log_file "Main" "Main" message args) no_handler

  pub is_directory : LogFile → Bytes → Io W Bool
  unfolding main_error
  is_directory log_file path =
      syscall_ret (Calls.stat path) (main_error log_file "Failed to stat path '%s'" path)

  close : ℕ → Handler W
  close file = ignore (Calls.fclose file)

  pub write_header : ℕ → LineHeader → Handler W → Io W ℕ
  write_header write_fd header handler =
      λ w. syscall_ret (write_n write_fd (line_header_bytes header (os.stale w 7))) handler w

  -- The loop over `getline`; it gives the buffer back. `fuel` bounds the number of lines, one more
  -- for the end of the file.
  pub send_lines : ℕ → LogFile → (write_fd : ℕ) → Bytes → (file buffer : ℕ) → Io W ℕ
  unfolding chomp main_error close write_header
  send_lines zero log_file write_fd file_path file buffer = out_of_fuel
  send_lines (suc fuel) log_file write_fd file_path file buffer = do
    (buffer', line) ← call (Request.getline file buffer)
    elim line [
      | none ↦ pure buffer'
      | some l ↦ do
        write_header write_fd (record { eof = false; line_length = length (chomp l) })
            (main_error log_file "Failed to send line header for file '%s'" file_path
              then_do free buffer'
              then_do close file)
        write_some write_fd (chomp l) (
            main_error log_file "Failed to send line data for file '%s'" file_path
            then_do free buffer'
            then_do close file)
        send_lines fuel log_file write_fd file_path file buffer'
    ]

  -- behind the loop: the test for a reading error, the end of the file, and the close
  finish_file : LogFile → ℕ → Bytes → ℕ → Io W (Unit {0})
  finish_file log_file write_fd file_path file = do
    broken ← call (Request.ferror file)
    if broken
        then syscall_ret failed (
            main_error log_file "Error occurred while reading file '%s'" file_path
            then_do close file)
        else pure tt
    write_header write_fd (record { eof = true; line_length = 0 })
        (main_error log_file "Failed to send eof for file '%s'" file_path then_do close file)
    syscall_ret (Calls.fclose file) (main_error log_file "Failed to close file '%s'" file_path)

  pub send_file_to_mapper : ℕ → LogFile → ℕ → Bytes → Io W (Unit {0})
  unfolding send_lines main_info
  send_file_to_mapper fuel log_file write_fd file_path = do
    main_info log_file "Sending file '%s' to mapper" (Arg.bytes file_path ∷ [])
    file ←
        syscall_ret (Calls.fopen file_path "r")
          (main_error log_file "Failed to open file '%s'" file_path)
    let header : FileNameHeader = record { file_name_length = length file_path }
    syscall_ret (write_n write_fd (file_name_header_bytes header)) (
        main_error log_file "Failed to send file name header for file '%s'" file_path
        then_do close file)
    syscall_ret (write_n write_fd file_path) (
        main_error log_file "Failed to send file name string for file '%s'" file_path
        then_do close file)
    buffer ← send_lines fuel log_file write_fd file_path file 0
    λ w. pure tt (free buffer w)
    finish_file log_file write_fd file_path file
    main_info log_file "Finished sending file '%s' to mapper" (Arg.bytes file_path ∷ [])

  -- `for (int j = i; j < files; j++) free(namelist[j]); free(namelist);`
  free_entries : List (ℕ × Bytes) → ℕ → Handler W
  free_entries [] table w = free table w
  free_entries (e ∷ es) table w = free_entries es table (free e.0 w)

  -- the loop over the entries of a directory
  pub send_entries : ℕ → LogFile → ℕ → Bytes → List (ℕ × Bytes) → ℕ → Io W (Unit {0})
  unfolding same_text join_path is_directory free_entries send_file_to_mapper
  send_entries fuel log_file write_fd dir_path [] table = λ w. pure tt (free table w)
  send_entries fuel log_file write_fd dir_path (e ∷ es) table = do
    let next = do (λ w. pure tt (free e.0 w)); send_entries fuel log_file write_fd dir_path es table
    let full_path = join_path dir_path e.1
    if same_text e.1 (b'.' ∷ []) || same_text e.1 (b'.' ∷ b'.' ∷ []) then next else do
      is_dir ← syscall_ret (is_directory log_file full_path) (
          main_error log_file "Failed to determine if entry '%s' is a directory" full_path
          then_do free_entries (e ∷ es) table)
      if is_dir
          then (do
            λ w. pure tt (
                mr_log_warning log_file "Main" "Main"
                  "Skipping directory '%s' in input directory '%s'"
                  (Arg.bytes full_path ∷ Arg.bytes dir_path ∷ []) w)
            next)
          else (do
            syscall_ret (send_file_to_mapper fuel log_file write_fd full_path) (
                mr_log_error log_file "Main" "Main"
                  "Failed to send file '%s' in directory '%s' to mapper"
                  (Arg.bytes full_path ∷ Arg.bytes dir_path ∷ [])
                then_do free_entries (e ∷ es) table)
            next)

  pub send_files_in_directory_to_mapper : ℕ → LogFile → ℕ → Bytes → Io W (Unit {0})
  unfolding send_entries main_info
  send_files_in_directory_to_mapper fuel log_file write_fd dir_path = do
    main_info log_file "Scanning directory '%s' for files to send to mapper"
        (Arg.bytes dir_path ∷ [])
    namelist ←
        syscall_ret (Calls.scandir dir_path)
          (main_error log_file "Failed to scan directory '%s'" dir_path)
    syscall_ret
        (mr_log_info log_file "Main" "Main" "Found %d entries in directory '%s'"
          (Arg.num (length namelist.entries) ∷ Arg.bytes dir_path ∷ []))
        (free_entries namelist.entries namelist.table)
    send_entries fuel log_file write_fd dir_path namelist.entries namelist.table
    main_info log_file "Finished sending files in directory '%s' to mapper"
        (Arg.bytes dir_path ∷ [])

  pub send_input_to_mapper : ℕ → LogFile → ℕ → Bytes → Io W (Unit {0})
  unfolding send_file_to_mapper send_files_in_directory_to_mapper
  send_input_to_mapper fuel log_file write_fd input_path = do
    is_dir ← syscall_ret (is_directory log_file input_path) no_handler
    main_info log_file "Input path '%s' is a %s"
        (Arg.bytes input_path ∷ Arg.text (if is_dir then "directory" else "file") ∷ [])
    if is_dir
        then syscall_ret (send_files_in_directory_to_mapper fuel log_file write_fd input_path)
            no_handler
        else syscall_ret (send_file_to_mapper fuel log_file write_fd input_path) no_handler
    main_info log_file "Finished sending input from path '%s' to mapper" (Arg.bytes input_path ∷ [])
