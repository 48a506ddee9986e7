-- ===== src/Files/Descriptors.antt =====
-- filesys.c: which descriptor a file gets, what closing it gives back, and what happens when there
-- is no descriptor left.
use mathlib.Core.Path.{subst}
use native.Mathlib.Decide.{ℕ_discrete}
use buaa755os.Base.{
  ℕ, zero, suc, ◌+◌, ◌≤◌, ◌<◌, ◌≡◌, refl, Bool, true, false, Option, none, some, update,
  update_self, update_ne, arith, inl, inr, ◌⊎◌, leb, if◌then◌else◌, assert, ◌>>◌, ap, sym, lt→ltb,
}
use buaa755os.Base.Int.{pos}
use buaa755os.Files.{
  FileSystem, File, Inode, set_file, set_inode, inode_deny_write, file_deny_write,
}
use buaa755os.Files.Fd.{fd_get_file, free_fd, allocate_fd, keep_fd, fd_open}

abbrev pub Taken : FileSystem → ℕ → Type 0
Taken fs fd = (f : ℕ) × (fs.ofiles fd ≡ some f)

-- Every descriptor that a file could get has one.
abbrev pub IsFull : FileSystem → Type 0
IsFull fs = (fd : ℕ) → 2 ≤ fd → fd < 128 → Taken fs fd

-- The least descriptor that a file can get.
pub record FirstFree (fs : FileSystem) (fd : ℕ) : Type 0 where
  pub from : 2 ≤ fd
  pub to : fd < 128
  pub free : fs.ofiles fd ≡ none
  pub first : (m : ℕ) → 2 ≤ m → m < fd → Taken fs m

-- The loop, from `i` on.
record Found (fs : FileSystem) (i n fd : ℕ) : Type 0 where
  from : i ≤ fd
  to : fd < i + n
  free : fs.ofiles fd ≡ none
  first : (m : ℕ) → i ≤ m → m < fd → Taken fs m

free_fd_lem :
    (n : ℕ) (fs : FileSystem) (i : ℕ)
    → Found fs i n (free_fd n fs.ofiles i)
      ⊎ ((free_fd n fs.ofiles i ≡ i + n) × ((m : ℕ) → i ≤ m → m < i + n → Taken fs m))
unfolding free_fd
free_fd_lem zero fs i = inr (omega arith, λ m p q. absurd (omega arith))
free_fd_lem (suc n) fs i = go (fs.ofiles i) refl (free_fd_lem n fs (i + 1))
  where
    go :
        (o : Option ℕ)
        → fs.ofiles i ≡ o
        → Found fs (i + 1) n (free_fd n fs.ofiles (i + 1))
          ⊎ ((free_fd n fs.ofiles (i + 1) ≡ i + 1 + n)
              × ((m : ℕ) → i + 1 ≤ m → m < i + 1 + n → Taken fs m))
        → Found fs i (suc n) (elim o [ none ↦ i | some f ↦ free_fd n fs.ofiles (i + 1) ])
          ⊎ ((elim o [ none ↦ i | some f ↦ free_fd n fs.ofiles (i + 1) ] ≡ i + suc n)
              × ((m : ℕ) → i ≤ m → m < i + suc n → Taken fs m))
    go none e rest = inl (record {
      from = omega arith;
      to = omega arith;
      free = e;
      first = λ m p q. absurd (omega arith);
    })
    go (some f) e (inl r) = inl (record {
      from = omega (arith, r.from);
      to = omega (arith, r.to);
      free = r.free;
      first = λ m p q. elim (ℕ_discrete i m) [
        | yes same_fd ↦ rw (← same_fd) (f, e)
        | no ne ↦ r.first m (omega arith) q
      ];
    })
    go (some f) e (inr (at_end, all)) = inr (
      omega arith,
      λ m p q. elim (ℕ_discrete i m) [
        | yes same_fd ↦ rw (← same_fd) (f, e)
        | no ne ↦ all m (omega arith) (omega arith)
      ],
    )

-- What allocate_fd does: the file gets the least free descriptor, or there is none, the answer is
-- 128 and nothing changes.
abbrev pub Allocated : FileSystem → ℕ → Type 0
Allocated fs file =
    ((fd : ℕ) × FirstFree fs fd
      × (allocate_fd fs file ≡ (pos fd, record fs { ofiles = update fs.ofiles fd (some file) })))
    ⊎ (IsFull fs × (allocate_fd fs file ≡ (pos 128, fs)))

-- allocate_fd gives the file the least free descriptor from 2 on, or, where all 126 are taken,
-- returns 128 and changes nothing.
pub allocate_fd_lem : (fs : FileSystem) (file : ℕ) → Allocated fs file
unfolding allocate_fd
allocate_fd_lem fs file = go (free_fd_lem 126 fs 2)
  where
    go :
        Found fs 2 126 (free_fd 126 fs.ofiles 2)
          ⊎ ((free_fd 126 fs.ofiles 2 ≡ 2 + 126) × ((m : ℕ) → 2 ≤ m → m < 2 + 126 → Taken fs m))
        → Allocated fs file
    go (inl r) = inl (
      free_fd 126 fs.ofiles 2,
      record { from = r.from; to = r.to; free = r.free; first = r.first },
      rw (lt→ltb (free_fd 126 fs.ofiles 2) 128 r.to),
    )
    go (inr (at_end, all)) = inr (all, rw at_end)

-- What denying writes leaves: the descriptors and the openers as they were, and the file's denial.
abbrev pub Denied : FileSystem → ℕ → FileSystem → Type 0
Denied fs file fs' =
    (fs'.ofiles ≡ fs.ofiles)
    × ((i : ℕ) → (fs'.inodes i).open_cnt ≡ (fs.inodes i).open_cnt)
    × ((fs'.files file).deny_write ≡ true)

file_deny_write_lem :
    (fs fs' : FileSystem) (file : ℕ) → file_deny_write fs file ≡ some fs' → Denied fs file fs'
unfolding file_deny_write
file_deny_write_lem fs fs' file e = already (fs.files file).deny_write refl e
  where
    x : File
    x = fs.files file

    denied : FileSystem
    denied = set_file fs file (record x { deny_write = true })

    y : Inode
    y = denied.inodes x.inode

    z : FileSystem
    z = set_inode denied x.inode (record y { deny_write_cnt = y.deny_write_cnt + 1 })

    counts : (i : ℕ) → (z.inodes i).open_cnt ≡ (fs.inodes i).open_cnt
    counts i = elim (ℕ_discrete x.inode i) [
      | yes q ↦
          subst (λ i. (z.inodes i).open_cnt ≡ (fs.inodes i).open_cnt) q
            (ap (λ n. n.open_cnt)
              (update_self denied.inodes x.inode
                (record y { deny_write_cnt = y.deny_write_cnt + 1 })))
      | no n ↦
          ap (λ n. n.open_cnt)
            (update_ne denied.inodes x.inode i (record y { deny_write_cnt = y.deny_write_cnt + 1 })
              n)
    ]

    counted : (b : Bool) → (assert b >> some z) ≡ some fs' → Denied fs file fs'
    counted true e =
        let same : z ≡ fs' = cc in
        subst (Denied fs file) same (
          refl,
          counts,
          ap (λ n. n.deny_write) (update_self fs.files file (record x { deny_write = true })),
        )
    counted false e = absurd cc

    already :
        (b : Bool)
        → x.deny_write ≡ b
        → (if b then some fs else inode_deny_write denied x.inode) ≡ some fs'
        → Denied fs file fs'
    already true d e =
        let same : fs ≡ fs' = cc in subst (Denied fs file) same (refl, (λ i. refl), d)
    already false d e = counted (leb (y.deny_write_cnt + 1) y.open_cnt) e

keeps :
    (fs : FileSystem) (file : ℕ)
    → IsFull fs
    → keep_fd (allocate_fd fs file).0 (allocate_fd fs file).1 file ≡ some (pos 128, fs)
unfolding keep_fd
keeps fs file full = go (allocate_fd_lem fs file)
  where
    go :
        Allocated fs file
        → keep_fd (allocate_fd fs file).0 (allocate_fd fs file).1 file ≡ some (pos 128, fs)
    go (inl (fd, f, e)) = let (g, taken) = full fd f.from f.to in absurd (cc (taken, f.free))
    go (inr (_, e)) = rw e refl

-- What fd_open does first to a file that could be opened.
abbrev pub denies : FileSystem → ℕ → Bool → Option FileSystem
unfolding file_deny_write
denies fs file true = file_deny_write fs file
denies fs file false = some fs

-- Where no descriptor is free, fd_open of a file that could be opened, and on which writes could be
-- denied if that is asked for, answers 128, which is no descriptor. The file stays open, every inode
-- having the openers that it had, and where writes were denied they stay denied.
pub fd_open_full :
    (fs fs' : FileSystem) (file : ℕ) (deny_write : Bool)
    → IsFull fs
    → denies fs file deny_write ≡ some fs'
    → (fd_open fs (some file) deny_write ≡ some (pos 128, fs'))
      × (fd_get_file fs' (pos 128) ≡ none)
      × ((i : ℕ) → (fs'.inodes i).open_cnt ≡ (fs.inodes i).open_cnt)
      × (deny_write ≡ true → (fs'.files file).deny_write ≡ true)
unfolding fd_open fd_get_file
fd_open_full fs fs' file false full e =
    let same : fs ≡ fs' = cc in
    subst
      (λ fs'.
        (fd_open fs (some file) false ≡ some (pos 128, fs'))
        × (fd_get_file fs' (pos 128) ≡ none)
        × ((i : ℕ) → (fs'.inodes i).open_cnt ≡ (fs.inodes i).open_cnt)
        × (false ≡ true → (fs'.files file).deny_write ≡ true))
      same (keeps fs file full, refl, (λ i. refl), (λ q. absurd cc))
fd_open_full fs fs' file true full e =
    let (o, c, d) = file_deny_write_lem fs fs' file e in
    (
      rw e (
          keeps fs' file
            (subst (λ g. (fd : ℕ) → 2 ≤ fd → fd < 128 → (f : ℕ) × (g fd ≡ some f)) (sym o) full)),
      refl,
      c,
      (λ q. d),
    )
