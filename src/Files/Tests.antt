-- ===== src/Files/Tests.antt =====
-- Descriptors of a thread with one file, at address 9, open as descriptor 2 and closed for others.
use buaa755os.Base.{
  ℕ, ◌+◌, ◌≡◌, Option, refl, true, false, none, some, [], ◌∷◌, ◌++◌, if◌then◌else◌, ◌==◌, arith,
}
use buaa755os.Base.Int.{pos, negsuc}
use buaa755os.Files.{FileSystem, inode_open, file_deny_write}
use buaa755os.Files.Fd.{fd_open, fd_get_file, fd_size, read_line, fd_read}
use buaa755os.Files.Descriptors.{IsFull, fd_open_full}
use buaa755os.Files.OpenClose.{RoundTrip, open_close}
use buaa755os.Files.Line.{stored_from, fd_read_line}

abbrev fs : FileSystem
fs = record {
  open_inodes = 4 ∷ [];
  inodes = λ i. record { sector = 10 + i; open_cnt = 2; removed = false; deny_write_cnt = 0 };
  files = λ f. record { inode = 4; pos = 0; deny_write = false };
  ofiles = λ fd. if fd == 2 then some 9 else none;
  length_on_disk = λ s. s + 100;
  is_dir_on_disk = λ s. false;
}

-- The same thread with every descriptor taken.
abbrev full : FileSystem
full = record fs { ofiles = λ fd. some fd }

size_of_two : fd_size fs (pos 2) ≡ pos 114
unfolding fd_size
size_of_two = refl

no_descriptor : fd_get_file fs (pos 500) ≡ none
unfolding fd_get_file
no_descriptor = refl

-- An open inode is found by its sector.
open_again : (inode_open none fs 14).0 ≡ some 4
unfolding inode_open
open_again = refl

-- Two characters, one of which is written before the buffer.
two_keys :
    read_line (104 ∷ 105 ∷ 10 ∷ []) (negsuc 0) (pos 8)
    ≡ some ((negsuc 0, 104) ∷ (pos 0, 105) ∷ [], pos 1)
unfolding read_line
two_keys = refl

abbrev got : Option FileSystem → FileSystem
got none = full
got (some fs') = fs'

full-IsFull : IsFull full
full-IsFull fd lo hi = (fd, refl)

fd_open_full_example :
    let fs' = got (file_deny_write full 11) in
    (fd_open full (some 11) true ≡ some (pos 128, fs'))
    × (fd_get_file fs' (pos 128) ≡ none)
    × ((i : ℕ) → (fs'.inodes i).open_cnt ≡ (full.inodes i).open_cnt)
    × (true ≡ true → (fs'.files 11).deny_write ≡ true)
unfolding file_deny_write
fd_open_full_example = fd_open_full full (got (file_deny_write full 11)) 11 true full-IsFull refl

open_close_example : RoundTrip fs 11 true
open_close_example = open_close fs 11 3 true (omega arith) (omega arith) refl refl (omega arith)

fd_read_line_example :
    fd_read fs (λ f. pos 0) (104 ∷ (105 ∷ []) ++ 10 ∷ []) (pos 0) (pos 8)
    ≡ some ((negsuc 0, 104) ∷ stored_from 1 (105 ∷ []), pos 1)
fd_read_line_example =
    fd_read_line fs (λ f. pos 0) 104 (105 ∷ []) [] 8 (λ e. absurd (omega (arith, e)))
      ((λ e. absurd (omega (arith, e))), tt) (omega arith)
