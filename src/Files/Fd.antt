-- ===== src/Files/Fd.antt =====
-- pintos_3/src/filesys/filesys.c: the file descriptors of the current thread.
use buaa755os.Base.{
  ℕ, zero, suc, ◌+◌, ◌-◌, Bool, ◌||◌, Option, none, some, List, [], ◌∷◌, if◌then◌else◌, ◌==◌, ltb,
  leb, false, update, ◌>>=◌,
}
use buaa755os.Base.Int.{ℤ, pos, negsuc, ltb_ℤ, ◌+ℤ◌, pos_part}
use buaa755os.Files.{
  FileSystem, max_open_files, file_deny_write, file_allow_write, file_close, file_length,
  file_is_dir, file_seek, file_tell,
}

unfoldable pub fd_get_file : FileSystem → ℤ → Option ℕ
fd_get_file fs (pos fd) = if ltb fd 2 || leb max_open_files fd then none else fs.ofiles fd
fd_get_file fs (negsuc n) = none

-- The loop of allocate_fd, with the rounds left.
unfoldable pub free_fd : ℕ → (ℕ → Option ℕ) → ℕ → ℕ
free_fd zero ofiles fd = fd
free_fd (suc n) ofiles fd =
    let rest = free_fd n ofiles (fd + 1) in elim (ofiles fd) [ none ↦ fd | some f ↦ rest ]

unfoldable pub allocate_fd : FileSystem → ℕ → ℤ × FileSystem
unfolding free_fd
allocate_fd fs file =
    let fd = free_fd (max_open_files - 2) fs.ofiles 2 in
    (
      pos fd,
      if ltb fd max_open_files then record fs { ofiles = update fs.ofiles fd (some file) } else fs,
    )

-- The end of fd_open: the file is closed again if there was no descriptor for it.
unfoldable pub keep_fd : ℤ → FileSystem → ℕ → Option (ℤ × FileSystem)
unfolding file_close
keep_fd (negsuc zero) fs file = file_close fs (some file) >>= λ fs'. some (negsuc zero, fs')
keep_fd fd fs file = some (fd, fs)

-- fd_open, where `opened` is the result of filesys_open.
unfoldable pub fd_open : FileSystem → Option ℕ → Bool → Option (ℤ × FileSystem)
unfolding allocate_fd file_deny_write keep_fd
fd_open fs none deny_write = some (negsuc zero, fs)
fd_open fs (some file) deny_write =
    (if deny_write then file_deny_write fs file else some fs) >>= λ fs'.
    let (fd, fs'') = allocate_fd fs' file in keep_fd fd fs'' file

-- fd_close, with the file at the descriptor.
unfoldable pub close_file : Option ℕ → FileSystem → ℤ → Option FileSystem
close_file none fs fd = some fs
close_file (some file) fs fd = do
  fs' ← file_allow_write fs file
  fs'' ← file_close fs' (some file)
  some (record fs'' { ofiles = update fs''.ofiles (pos_part fd) none })

unfoldable pub fd_close : FileSystem → ℤ → Option FileSystem
fd_close fs fd = close_file (fd_get_file fs fd) fs fd

unfoldable pub fd_size : FileSystem → ℤ → ℤ
unfolding fd_get_file file_length file_is_dir
fd_size fs fd = elim (fd_get_file fs fd) [
  | none ↦ negsuc zero
  | some file ↦ if file_is_dir fs file then negsuc zero else pos (file_length fs file)
]

unfoldable pub fd_seek : FileSystem → ℤ → ℤ → Option FileSystem
unfolding fd_get_file file_is_dir file_seek
fd_seek fs fd new_pos = elim (fd_get_file fs fd) [
  | none ↦ some fs
  | some file ↦ if file_is_dir fs file then some fs else file_seek fs file new_pos
]

unfoldable pub fd_tell : FileSystem → ℤ → ℤ
unfolding fd_get_file file_is_dir file_tell
fd_tell fs fd = elim (fd_get_file fs fd) [
  | none ↦ negsuc zero
  | some file ↦ if file_is_dir fs file then negsuc zero else pos (file_tell fs file)
]

-- The loop of fd_read on standard input: what it writes, each with its index in the buffer, and the
-- value returned; `none` where it waits for another key. 10 is the newline.
unfoldable pub read_line : List ℕ → ℤ → ℤ → Option (List (ℤ × ℕ) × ℤ)
unfolding ◌+ℤ◌
read_line [] bytes_read size = if ltb_ℤ bytes_read size then none else some ([], bytes_read)
read_line (c ∷ keys) bytes_read size =
    let rest = read_line keys (bytes_read +ℤ pos 1) size in
    if ltb_ℤ bytes_read size
    then (if c == 10
        then some ([], bytes_read)
        else (rest >>= λ r. some ((bytes_read, c) ∷ r.0, r.1)))
    else some ([], bytes_read)

-- STDIN_FILENO
abbrev pub is_stdin : ℤ → Bool
is_stdin (pos fd) = fd == 0
is_stdin (negsuc n) = false

-- fd_read of a file that is at the descriptor or not; `file_read` is the result of file_read.
abbrev pub read_file : FileSystem → (ℕ → ℤ) → ℤ → Option ℕ → ℤ
unfolding file_is_dir
read_file fs file_read bytes_read none = bytes_read
read_file fs file_read bytes_read (some file) =
    if file_is_dir fs file then bytes_read else file_read file

-- fd_read, with the keys that are pressed: what it writes when it reads the keyboard, and the value
-- returned.
unfoldable pub fd_read : FileSystem → (ℕ → ℤ) → List ℕ → ℤ → ℤ → Option (List (ℤ × ℕ) × ℤ)
unfolding read_line fd_get_file file_is_dir
fd_read fs file_read keys fd size =
    let bytes_read = negsuc zero in
    if is_stdin fd
    then read_line keys bytes_read size
    else some ([], read_file fs file_read bytes_read (fd_get_file fs fd))
