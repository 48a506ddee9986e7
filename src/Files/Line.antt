-- ===== src/Files/Line.antt =====
-- filesys.c: fd_read on the keyboard.
use buaa755os.Base.{
  ℕ, suc, ◌+◌, ◌≤◌, ◌≡◌, ◌≢◌, true, some, List, [], ◌∷◌, ◌++◌, length, arith, ap, ◌∙◌, ==_ne,
}
use buaa755os.Base.Int.{ℤ, pos, negsuc, ltb_ℤ, ◌+ℤ◌, sub_ℕ}
use buaa755os.KernelList.Ordered.{All}
use buaa755os.Files.{FileSystem}
use buaa755os.Files.Fd.{read_line, fd_read}

-- The characters, each with its place in the buffer, the first one before place `k`.
abbrev pub stored_from : ℕ → List ℕ → List (ℤ × ℕ)
stored_from k [] = []
stored_from k (c ∷ cs) = (sub_ℕ k 1, c) ∷ stored_from (k + 1) cs

step : (k : ℕ) → sub_ℕ k 1 +ℤ pos 1 ≡ sub_ℕ (k + 1) 1
unfolding ◌+ℤ◌
step k = ground arith

in_size : (k size : ℕ) → k ≤ size → ltb_ℤ (sub_ℕ k 1) (pos size) ≡ true
in_size k size h = ground arith

read_from :
    (cs keys : List ℕ) (k size : ℕ)
    → All (λ c. c ≢ 10) cs
    → k + length cs ≤ size
    → read_line (cs ++ 10 ∷ keys) (sub_ℕ k 1) (pos size)
      ≡ some (stored_from k cs, sub_ℕ (k + length cs) 1)
unfolding read_line
read_from [] keys k size no_newline h =
    let e : k ≡ k + 0 = omega arith in
    rw (in_size k size (omega arith)) (ap (λ n. some ([], sub_ℕ n 1)) e)
read_from (c ∷ cs) keys k size no_newline h =
    let e : k + 1 + length cs ≡ k + suc (length cs) = omega arith in
    rw
      (
        in_size k size (omega arith),
        ==_ne c 10 no_newline.0,
        step k,
        read_from cs keys (k + 1) size no_newline.1 (omega arith),
      )
      (ap (λ n. some ((sub_ℕ k 1, c) ∷ stored_from (k + 1) cs, sub_ℕ n 1)) e)

-- fd_read of descriptor 0, the keyboard, of a line that has a character and fits in SIZE, writes the
-- first character before the buffer, at index -1, the next at 0, and so on, and returns one less than
-- the number of characters.
pub fd_read_line :
    (fs : FileSystem) (file_read : ℕ → ℤ) (c : ℕ) (cs keys : List ℕ) (size : ℕ)
    → c ≢ 10
    → All (λ d. d ≢ 10) cs
    → length (c ∷ cs) ≤ size
    → fd_read fs file_read (c ∷ cs ++ 10 ∷ keys) (pos 0) (pos size)
      ≡ some ((negsuc 0, c) ∷ stored_from 1 cs, pos (length cs))
unfolding fd_read
fd_read_line fs file_read c cs keys size first others h =
    let e : sub_ℕ (0 + suc (length cs)) 1 ≡ pos (length cs) = ground arith in
    read_from (c ∷ cs) keys 0 size (first, others) (omega arith)
    ∙ ap (λ z. some ((negsuc 0, c) ∷ stored_from 1 cs, z)) e
