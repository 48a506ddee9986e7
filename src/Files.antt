-- ===== src/Files.antt =====
-- pintos_3/src/filesys/file.c, the in-memory inodes of inode.c, and the file descriptors of
-- filesys.c. The blocks of a file are not part of this state: what is on disk of an inode is its
-- length and whether it is a directory.
pub mod Fd
pub mod Descriptors
pub mod Close
pub mod OpenClose
pub mod Line
mod Tests
use buaa755os.Base.{
  ℕ, zero, suc, ◌+◌, ◌-◌, ◌*◌, Bool, true, false, not, ◌&&◌, ◌||◌, Option, none, some, List, [],
  ◌∷◌, if◌then◌else◌, ◌==◌, ltb, leb, update, ◌>>=◌, ◌>>◌, assert,
}
use buaa755os.Base.Int.{ℤ, pos, negsuc, ltb_ℤ}
use buaa755os.KernelList.{list_push_front, list_remove}

abbrev pub max_open_files : ℕ
max_open_files = 128

abbrev pub max_file_size : ℕ
max_file_size = 8 * 1024 * 1024

-- `struct inode`, less its lock. Whether it is open is told by the list `open_inodes`.
pub record Inode : Type 0 where
  pub sector : ℕ
  pub open_cnt : ℕ
  pub removed : Bool
  pub deny_write_cnt : ℕ

-- `struct file`
pub record File : Type 0 where
  pub inode : ℕ
  pub pos : ℕ
  pub deny_write : Bool

-- Inodes and files by address, the descriptors of the current thread, and by sector what the disk
-- says of an inode.
pub record FileSystem : Type 0 where
  pub open_inodes : List ℕ
  pub inodes : ℕ → Inode
  pub files : ℕ → File
  pub ofiles : ℕ → Option ℕ
  pub length_on_disk : ℕ → ℕ
  pub is_dir_on_disk : ℕ → Bool

abbrev pub set_inode : FileSystem → ℕ → Inode → FileSystem
set_inode fs i x = record fs { inodes = update fs.inodes i x }

abbrev pub set_file : FileSystem → ℕ → File → FileSystem
set_file fs f x = record fs { files = update fs.files f x }

-- The loop of inode_open.
unfoldable pub find_open : (ℕ → Inode) → ℕ → List ℕ → Option ℕ
find_open inodes sector [] = none
find_open inodes sector (i ∷ is) =
    if (inodes i).sector == sector then some i else find_open inodes sector is

-- `memory` is what malloc returns, here and below.
unfoldable pub inode_open : Option ℕ → FileSystem → ℕ → Option ℕ × FileSystem
unfolding find_open list_push_front
inode_open memory fs sector = elim (find_open fs.inodes sector fs.open_inodes) [
  | some i ↦
      (some i, set_inode fs i (record (fs.inodes i) { open_cnt = (fs.inodes i).open_cnt + 1 }))
  | none ↦ elim memory [
    | none ↦ (none, fs)
    | some i ↦
        let x : Inode = record {
          sector = sector;
          open_cnt = 1;
          removed = false;
          deny_write_cnt = 0;
        } in
        (some i, set_inode (record fs { open_inodes = list_push_front i fs.open_inodes }) i x)
  ]
]

unfoldable pub inode_reopen : FileSystem → Option ℕ → FileSystem
inode_reopen fs none = fs
inode_reopen fs (some i) =
    set_inode fs i (record (fs.inodes i) { open_cnt = (fs.inodes i).open_cnt + 1 })

-- inode_close, less the release of the blocks of a removed inode. An open inode has an opener, so
-- the count does not stop at 0.
unfoldable pub inode_close : FileSystem → Option ℕ → FileSystem
unfolding list_remove
inode_close fs none = fs
inode_close fs (some i) =
    let open_cnt = (fs.inodes i).open_cnt - 1 in
    let fs' = set_inode fs i (record (fs.inodes i) { open_cnt = open_cnt }) in
    if open_cnt == 0 then record fs' { open_inodes = list_remove i fs'.open_inodes } else fs'

unfoldable pub inode_remove : FileSystem → ℕ → FileSystem
inode_remove fs i = set_inode fs i (record (fs.inodes i) { removed = true })

unfoldable pub inode_deny_write : FileSystem → ℕ → Option FileSystem
inode_deny_write fs i =
    let x = fs.inodes i in
    assert (leb (x.deny_write_cnt + 1) x.open_cnt)
    >> some (set_inode fs i (record x { deny_write_cnt = x.deny_write_cnt + 1 }))

unfoldable pub inode_allow_write : FileSystem → ℕ → Option FileSystem
inode_allow_write fs i =
    let x = fs.inodes i in
    assert (ltb 0 x.deny_write_cnt)
    >> (assert (leb x.deny_write_cnt x.open_cnt)
        >> some (set_inode fs i (record x { deny_write_cnt = x.deny_write_cnt - 1 })))

unfoldable pub inode_length : FileSystem → ℕ → ℕ
inode_length fs i = fs.length_on_disk (fs.inodes i).sector

unfoldable pub inode_is_dir : FileSystem → ℕ → Bool
inode_is_dir fs i = fs.is_dir_on_disk (fs.inodes i).sector

unfoldable pub file_open : Option ℕ → FileSystem → Option ℕ → Option ℕ × FileSystem
unfolding inode_close
file_open (some f) fs (some i) =
    (some f, set_file fs f (record { inode = i; pos = 0; deny_write = false }))
file_open memory fs inode = (none, inode_close fs inode)

unfoldable pub file_reopen : Option ℕ → FileSystem → ℕ → Option ℕ × FileSystem
unfolding file_open inode_reopen
file_reopen memory fs f =
    let inode = some (fs.files f).inode in file_open memory (inode_reopen fs inode) inode

unfoldable pub file_deny_write : FileSystem → ℕ → Option FileSystem
unfolding inode_deny_write
file_deny_write fs f =
    let x = fs.files f in
    if x.deny_write
    then some fs
    else inode_deny_write (set_file fs f (record x { deny_write = true })) x.inode

unfoldable pub file_allow_write : FileSystem → ℕ → Option FileSystem
unfolding inode_allow_write
file_allow_write fs f =
    let x = fs.files f in
    if x.deny_write
    then inode_allow_write (set_file fs f (record x { deny_write = false })) x.inode
    else some fs

unfoldable pub file_close : FileSystem → Option ℕ → Option FileSystem
unfolding file_allow_write inode_close
file_close fs none = some fs
file_close fs (some f) =
    file_allow_write fs f >>= λ fs'. some (inode_close fs' (some (fs'.files f).inode))

unfoldable pub file_length : FileSystem → ℕ → ℕ
unfolding inode_length
file_length fs f = inode_length fs (fs.files f).inode

unfoldable pub file_is_dir : FileSystem → ℕ → Bool
unfolding inode_is_dir
file_is_dir fs f = inode_is_dir fs (fs.files f).inode

unfoldable pub file_seek : FileSystem → ℕ → ℤ → Option FileSystem
file_seek fs f (pos new_pos) =
    let stop = if leb max_file_size new_pos then max_file_size - 1 else new_pos in
    some (set_file fs f (record (fs.files f) { pos = stop }))
file_seek fs f (negsuc n) = none

unfoldable pub file_tell : FileSystem → ℕ → ℕ
file_tell fs f = (fs.files f).pos
