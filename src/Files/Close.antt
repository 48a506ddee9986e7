-- ===== src/Files/Close.antt =====
-- file.c: the single steps of denying and allowing writes and of closing.
use buaa755os.Base.{
  ℕ, ◌+◌, ◌-◌, ◌≤◌, ◌<◌, ◌≡◌, refl, true, false, some, ◌==◌, update, arith, Bool-cases, inl, inr,
  lt→ltb, le→leb,
}
use buaa755os.Files.{
  FileSystem, set_inode, set_file, file_deny_write, file_allow_write, file_close, inode_close,
}

-- The state after a successful file_deny_write, and after a file_allow_write that undoes one.
abbrev pub denied : FileSystem → ℕ → FileSystem
denied fs f =
    let x = fs.files f in
    let y = fs.inodes x.inode in
    set_inode (set_file fs f (record x { deny_write = true })) x.inode
      (record y { deny_write_cnt = y.deny_write_cnt + 1 })

abbrev pub allowed : FileSystem → ℕ → FileSystem
allowed fs f =
    let x = fs.files f in
    let y = fs.inodes x.inode in
    set_inode (set_file fs f (record x { deny_write = false })) x.inode
      (record y { deny_write_cnt = y.deny_write_cnt - 1 })

pub deny_lem :
    (fs : FileSystem) (f : ℕ)
    → (fs.files f).deny_write ≡ false
    → (fs.inodes (fs.files f).inode).deny_write_cnt < (fs.inodes (fs.files f).inode).open_cnt
    → file_deny_write fs f ≡ some (denied fs f)
unfolding file_deny_write
deny_lem fs f off room =
    let y = fs.inodes (fs.files f).inode in
    rw (off, le→leb (y.deny_write_cnt + 1) y.open_cnt (omega arith)) refl

pub allow_lem :
    (fs : FileSystem) (f : ℕ)
    → (fs.files f).deny_write ≡ true
    → 0 < (fs.inodes (fs.files f).inode).deny_write_cnt
    → (fs.inodes (fs.files f).inode).deny_write_cnt ≤ (fs.inodes (fs.files f).inode).open_cnt
    → file_allow_write fs f ≡ some (allowed fs f)
unfolding file_allow_write
allow_lem fs f on some_denied room =
    let y = fs.inodes (fs.files f).inode in
    rw (on, lt→ltb 0 y.deny_write_cnt some_denied, le→leb y.deny_write_cnt y.open_cnt room) refl

pub allow_none :
    (fs : FileSystem) (f : ℕ) → (fs.files f).deny_write ≡ false → file_allow_write fs f ≡ some fs
unfolding file_allow_write
allow_none fs f off = rw off

pub close_lem :
    (fs : FileSystem) (f : ℕ)
    → (fs.files f).deny_write ≡ false
    → file_close fs (some f) ≡ some (inode_close fs (some (fs.files f).inode))
unfolding file_close
close_lem fs f off = rw (allow_none fs f off) refl

pub closed-inodes :
    (fs : FileSystem) (i : ℕ)
    → ((inode_close fs (some i)).inodes
        ≡ update fs.inodes i (record (fs.inodes i) { open_cnt = (fs.inodes i).open_cnt - 1 }))
      × ((inode_close fs (some i)).ofiles ≡ fs.ofiles)
unfolding inode_close
closed-inodes fs i = elim (Bool-cases ((fs.inodes i).open_cnt - 1 == 0)) [
  | inl last ↦ rw last (refl, refl)
  | inr more ↦ rw more (refl, refl)
]
