-- ===== src/Files/OpenClose.antt =====
-- filesys.c and file.c: a file that is opened through a descriptor and closed again.
use mathlib.Core.Path.{subst}
use buaa755os.Base.{
  ℕ, ◌+◌, ◌-◌, ◌≤◌, ◌<◌, ◌≡◌, ◌≢◌, refl, Bool, true, false, Option, none, some, ◌==◌, update,
  update_self, update_ne, arith, Bool-cases, inl, inr, sym, ap, ◌∙◌, ==_iff,
}
use buaa755os.Base.Int.{pos}
use buaa755os.Files.{Inode, FileSystem, file_allow_write, file_close, inode_close}
use buaa755os.Files.Fd.{fd_get_file, allocate_fd, fd_open, fd_close, close_file}
use buaa755os.Files.Descriptors.{FirstFree, allocate_fd_lem}
use buaa755os.Files.Close.{
  denied, allowed, deny_lem, allow_lem, allow_none, close_lem, closed-inodes,
}

-- What a file that was opened and closed leaves: the descriptors and every inode as they were, but
-- for one opener less of the file's own inode.
pub record Restored (fs : FileSystem) (i : ℕ) (fs' : FileSystem) : Type 0 where
  pub descriptors : (m : ℕ) → fs'.ofiles m ≡ fs.ofiles m
  pub openers : (fs'.inodes i).open_cnt + 1 ≡ (fs.inodes i).open_cnt
  pub denied : (fs'.inodes i).deny_write_cnt ≡ (fs.inodes i).deny_write_cnt
  pub others : (j : ℕ) → i ≢ j → fs'.inodes j ≡ fs.inodes j

-- A descriptor that was free is free again.
cleared :
    (g : ℕ → Option ℕ) (fd f m : ℕ) → g fd ≡ none → update (update g fd (some f)) fd none m ≡ g m
cleared g fd f m free = elim (Bool-cases (fd == m)) [
  | inl here ↦ let same_fd = (==_iff fd m).0 here in rw here (sym (rw (← same_fd) free))
  | inr away ↦ rw away refl
]

-- fd_close at a descriptor of the file.
close_fd :
    (fs fs' fs'' : FileSystem) (fd f : ℕ)
    → fd_get_file fs (pos fd) ≡ some f
    → file_allow_write fs f ≡ some fs'
    → file_close fs' (some f) ≡ some fs''
    → fd_close fs (pos fd) ≡ some (record fs'' { ofiles = update fs''.ofiles fd none })
unfolding fd_close close_file
close_fd fs fs' fs'' fd f here allow close = rw (here) (rw (allow) (rw (close) refl))

get_lem :
    (fs : FileSystem) (fd f : ℕ)
    → 2 ≤ fd
    → fd < 128
    → fs.ofiles fd ≡ some f
    → fd_get_file fs (pos fd) ≡ some f
unfolding fd_get_file
get_lem fs fd f lo hi e = ground (arith, e)

-- A change at an address that is known by another name.
change_at : (m : ℕ → Inode) (k i : ℕ) (g : Inode → Inode) → k ≡ i → update m k (g (m k)) i ≡ g (m i)
change_at m k i g e = subst (λ j. update m k (g (m k)) j ≡ g (m j)) e (update_self m k (g (m k)))

change_away : (m : ℕ → Inode) (k i j : ℕ) (x : Inode) → k ≡ i → i ≢ j → update m k x j ≡ m j
change_away m k i j x e ne = update_ne m k j x (λ q. ne (sym e ∙ q))

-- A file that is open under a descriptor, whose inode has other writers denied by it or not.
record OpenAs (fs : FileSystem) (fd file i : ℕ) (deny : Bool) (fs₁ : FileSystem) : Type 0 where
  at_fd : fd_get_file fs₁ (pos fd) ≡ some file
  table : (m : ℕ) → update fs₁.ofiles fd none m ≡ fs.ofiles m
  flag : (fs₁.files file).deny_write ≡ deny
  its_inode : (fs₁.files file).inode ≡ i
  openers : (fs₁.inodes i).open_cnt ≡ (fs.inodes i).open_cnt
  others : (j : ℕ) → i ≢ j → fs₁.inodes j ≡ fs.inodes j

-- Closing it, where it denies no writes any more.
close_open :
    (fs fs₁ : FileSystem) (fd file i : ℕ)
    → OpenAs fs fd file i false fs₁
    → 0 < (fs.inodes i).open_cnt
    → (fs₁.inodes i).deny_write_cnt ≡ (fs.inodes i).deny_write_cnt
    → (fs₂ : FileSystem) × (file_close fs₁ (some file) ≡ some fs₂)
      × Restored fs i (record fs₂ { ofiles = update fs₂.ofiles fd none })
close_open fs fs₁ fd file i o open_now same_denied =
    let k = (fs₁.files file).inode in
    let (inodes, ofiles) = closed-inodes fs₁ k in
    let here = change_at fs₁.inodes k i (λ y. record y { open_cnt = y.open_cnt - 1 }) o.its_inode in
    (
      inode_close fs₁ (some k),
      close_lem fs₁ file o.flag,
      record {
        descriptors = λ m. ap (λ g. update g fd none m) ofiles ∙ o.table m;
        openers =
            ap (λ g. (g i).open_cnt + 1) inodes
            ∙ ap (λ y. y.open_cnt + 1) here
            ∙ omega (arith, o.openers);
        denied =
            ap (λ g. (g i).deny_write_cnt) inodes ∙ ap (λ y. y.deny_write_cnt) here ∙ same_denied;
        others = λ j ne.
            ap (λ g. g j) inodes ∙ change_away fs₁.inodes k i j _ o.its_inode ne ∙ o.others j ne;
      },
    )

-- The round trip of a file through a descriptor.
abbrev pub RoundTrip : FileSystem → ℕ → Bool → Type 0
RoundTrip fs file deny =
    (fd : ℕ) × (fs₁ : FileSystem) × (fs₂ : FileSystem) × (fd_open fs (some file) deny
      ≡ some (pos fd, fs₁))
    × (fd_get_file fs₁ (pos fd) ≡ some file)
    × (fd_close fs₁ (pos fd) ≡ some fs₂)
    × Restored fs (fs.files file).inode fs₂

open_close_plain :
    (fs : FileSystem) (file fd : ℕ)
    → FirstFree fs fd
    → allocate_fd fs file ≡ (pos fd, record fs { ofiles = update fs.ofiles fd (some file) })
    → (fs.files file).deny_write ≡ false
    → 0 < (fs.inodes (fs.files file).inode).open_cnt
    → RoundTrip fs file false
unfolding fd_open
open_close_plain fs file fd first e off opened =
    let fs₁ : FileSystem = record fs { ofiles = update fs.ofiles fd (some file) } in
    let here = get_lem fs₁ fd file first.from first.to (update_self fs.ofiles fd (some file)) in
    let (fs₂, closes, r) =
      close_open fs fs₁ fd file (fs.files file).inode
        (record {
          at_fd = here;
          table = λ m. cleared fs.ofiles fd file m first.free;
          flag = off;
          its_inode = refl;
          openers = refl;
          others = λ j _. refl;
        })
        opened refl in
    (
      fd,
      fs₁,
      _,
      rw e refl,
      here,
      close_fd fs₁ fs₁ fs₂ fd file here (allow_none fs₁ file off) closes,
      r,
    )

open_close_denied :
    (fs : FileSystem) (file fd : ℕ)
    → FirstFree fs fd
    → allocate_fd (denied fs file) file
      ≡ (pos fd, record (denied fs file) { ofiles = update fs.ofiles fd (some file) })
    → (fs.files file).deny_write ≡ false
    → (fs.inodes (fs.files file).inode).deny_write_cnt < (fs.inodes (fs.files file).inode).open_cnt
    → RoundTrip fs file true
unfolding fd_open
open_close_denied fs file fd first e off room =
    let i = (fs.files file).inode in
    let y = fs.inodes i in
    let fs₁ : FileSystem = record (denied fs file) { ofiles = update fs.ofiles fd (some file) } in
    let here = get_lem fs₁ fd file first.from first.to (update_self fs.ofiles fd (some file)) in
    let x₁ = update_self fs.files file (record (fs.files file) { deny_write = true }) in
    let y₁ = update_self fs.inodes i (record y { deny_write_cnt = y.deny_write_cnt + 1 }) in
    let k = (fs₁.files file).inode in
    let ek : k ≡ i = ap (λ x. x.inode) x₁ in
    let one_more : (fs₁.inodes k).deny_write_cnt ≡ y.deny_write_cnt + 1 =
      ap (λ q. (fs₁.inodes q).deny_write_cnt) ek ∙ ap (λ z. z.deny_write_cnt) y₁ in
    let same_open : (fs₁.inodes k).open_cnt ≡ y.open_cnt =
      ap (λ q. (fs₁.inodes q).open_cnt) ek ∙ ap (λ z. z.open_cnt) y₁ in
    let allows =
      allow_lem fs₁ file (ap (λ x. x.deny_write) x₁) (omega (arith, one_more))
        (omega (arith, one_more, same_open)) in
    let fs₂ = allowed fs₁ file in
    let x₂ = update_self fs₁.files file (record (fs₁.files file) { deny_write = false }) in
    let y₂ =
      change_at fs₁.inodes k i (λ z. record z { deny_write_cnt = z.deny_write_cnt - 1 }) ek in
    let (fs₃, closes, r) =
      close_open fs fs₂ fd file i
        (record {
          at_fd = get_lem fs₂ fd file first.from first.to (update_self fs.ofiles fd (some file));
          table = λ m. cleared fs.ofiles fd file m first.free;
          flag = ap (λ x. x.deny_write) x₂;
          its_inode = ap (λ x. x.inode) x₂ ∙ ek;
          openers = ap (λ z. z.open_cnt) y₂ ∙ ap (λ z. z.open_cnt) y₁;
          others = λ j ne. change_away fs₁.inodes k i j _ ek ne ∙ update_ne fs.inodes i j _ ne;
        })
        (omega arith)
        (ap (λ z. z.deny_write_cnt) y₂ ∙ ap (λ z. z.deny_write_cnt - 1) y₁ ∙ omega arith) in
    (
      fd,
      fs₁,
      _,
      rw (deny_lem fs file off room) (rw e refl),
      here,
      close_fd fs₁ fs₂ fs₃ fd file here allows closes,
      r,
    )

-- fd_open of a file that could be opened, which denies no writes yet and whose inode has more
-- openers than denials, with a descriptor free, whether it is to deny writes or not, and then
-- fd_close of the descriptor that it returns, do not panic. In between the descriptor names the
-- file; afterwards all descriptors and deny counts are as before, and the file's inode has one
-- opener less.
pub open_close :
    (fs : FileSystem) (file free : ℕ) (deny : Bool)
    → 2 ≤ free
    → free < 128
    → fs.ofiles free ≡ none
    → (fs.files file).deny_write ≡ false
    → (fs.inodes (fs.files file).inode).deny_write_cnt < (fs.inodes (fs.files file).inode).open_cnt
    → RoundTrip fs file deny
open_close fs file free false lo hi empty off room = elim (allocate_fd_lem fs file) [
  | inl (fd, first, e) ↦ open_close_plain fs file fd first e off (omega arith)
  | inr (full, _) ↦ let (f, taken) = full free lo hi in absurd (cc (taken, empty))
]
open_close fs file free true lo hi empty off room = elim (allocate_fd_lem (denied fs file) file) [
  | inl (fd, first, e) ↦
      open_close_denied fs file fd
        (record { from = first.from; to = first.to; free = first.free; first = first.first }) e off
        room
  | inr (full, _) ↦ let (f, taken) = full free lo hi in absurd (cc (taken, empty))
]
