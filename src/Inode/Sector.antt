-- ===== src/Inode/Sector.antt =====
-- inode.c: what following a pointer of an index allocates, and that it is found again.
use mathlib.Core.Path.{subst}
use native.Mathlib.Decide.{ℕ_discrete}
use buaa755os.Base.{
  ℕ, ◌+◌, ◌/◌, ◌<◌, ◌≡◌, ◌≢◌, refl, Bool, true, false, Option, none, some, update, update_self,
  update_ne, arith, inl, inr, ◌⊎◌, sym, ap, ◌∙◌, ==_ne, lt→ltb,
}
use buaa755os.Bitmap.Bits.{IsValid, bit_at, in_range, Changed}
use buaa755os.Bitmap.Alloc.{IsFirstRun}
use buaa755os.FreeMap.{Words, Writer}
use buaa755os.FreeMap.Alloc.{Kept, OnlyMap, Allocates, free_map_allocate_lem}
use buaa755os.Inode.{Disk, link, follow, byte_to_sector, direct_sector_idx}

abbrev pub InUse : Disk → ℕ → Type 0
InUse d sector = bit_at d.free_map.map sector ≡ true

-- The state in which a pointer can be followed: the free map is valid, it has itself and the block
-- in use, and so is the sector that the pointer names, if it names one.
pub record CanFollow (d : Disk) (block idx : ℕ) : Type 0 where
  pub valid : IsValid d.free_map.map
  pub zero_used : InUse d 0
  pub block_used : InUse d block
  pub target_used : d.words block idx ≢ 0 → InUse d (d.words block idx)

-- What following a pointer leaves. With a sector: the pointer names it, it is in use and not sector
-- 0, what was in use is in use, and no word of a sector that was in use and is not the free map's has
-- changed but the pointer. With none: the same sectors are in use, and no word of a sector that is not
-- the free map's has changed.
abbrev pub Followed : (ℕ → Bool) → Disk → ℕ → ℕ → Option ℕ → Disk → Type 0
Followed is_map d block idx (some sector) d' =
    (sector ≢ 0)
    × InUse d' sector
    × (d'.words block idx ≡ sector)
    × ((s : ℕ) → InUse d s → InUse d' s)
    × ((s i : ℕ)
        → InUse d s
        → is_map s ≡ false
        → (s ≢ block) ⊎ (i ≢ idx)
        → d'.words s i ≡ d.words s i)
    × IsValid d'.free_map.map
Followed is_map d block idx none d' =
    ((s : ℕ) → bit_at d'.free_map.map s ≡ bit_at d.free_map.map s) × Kept is_map d.words d'.words

other_word :
    (words : Words) (block idx sector s i : ℕ)
    → (s ≢ block) ⊎ (i ≢ idx)
    → update words block (update (words block) idx sector) s i ≡ words s i
other_word words block idx sector s i (inl ne) =
    ap (λ g. g i) (update_ne words block s (update (words block) idx sector) (λ e. ne (sym e)))
other_word words block idx sector s i (inr ne) = elim (ℕ_discrete block s) [
  | yes e ↦
      subst (λ s. update words block (update (words block) idx sector) s i ≡ words s i) e
        (ap (λ g. g i) (update_self words block (update (words block) idx sector))
          ∙ update_ne (words block) idx i sector (λ q. ne (sym q)))
  | no far ↦ ap (λ g. g i) (update_ne words block s (update (words block) idx sector) far)
]

-- The words after a link to a sector that was not in use.
link-Followed :
    (is_map : ℕ → Bool) (d : Disk) (d₁ : Disk) (block idx sector : ℕ)
    → CanFollow d block idx
    → IsFirstRun d.free_map.map 0 1 false sector
    → Changed d.free_map.map (in_range sector 1) true d₁.free_map.map
    → Kept is_map d.words d₁.words
    → Followed is_map d block idx (some sector) (record d₁ { words = link d₁ block idx sector })
unfolding link
link-Followed is_map d d₁ block idx sector p first c k =
    let free : bit_at d.free_map.map sector ≡ false =
      first.run sector (omega arith) (omega arith) in
    let apart : (s : ℕ) → InUse d s → sector ≢ s =
      λ s used e. cc (ap (bit_at d.free_map.map) e, free, used) in
    let row = update (d₁.words block) idx sector in
    let w₁ = update d₁.words block row in
    (
      (λ e. apart 0 p.zero_used e),
      ground (arith, c.bits sector),
      ap (λ g. g idx)
            (update_ne w₁ sector block (λ i. 0) (apart block p.block_used)
              ∙ update_self d₁.words block row)
          ∙ update_self (d₁.words block) idx sector,
      (λ s used. ground (arith, c.bits s)),
      (λ s i used m ne.
          ap (λ g. g i) (update_ne w₁ sector s (λ i. 0) (apart s used))
          ∙ other_word d₁.words block idx sector s i ne
          ∙ k s i m),
      c.valid,
    )

abbrev pub Follows : (ℕ → Bool) → Writer → Disk → ℕ → ℕ → Type 0
Follows is_map bitmap_write d block idx =
    (r : Option ℕ) × (d' : Disk) × (follow bitmap_write d block idx ≡ some (r, d'))
    × Followed is_map d block idx r d'

-- Following a pointer of an index block does not panic. Where it returns a sector, the pointer names
-- it, the sector is in use and is not sector 0, and nothing else that was in use has changed but the
-- free map's sectors; else nothing but these has.
pub follow-Followed :
    (is_map : ℕ → Bool) (bitmap_write : Writer) (d : Disk) (block idx : ℕ)
    → OnlyMap bitmap_write is_map
    → CanFollow d block idx
    → Follows is_map bitmap_write d block idx
unfolding follow
follow-Followed is_map bitmap_write d block idx only p = elim (ℕ_discrete (d.words block idx) 0) [
  | no ne ↦ (
    some (d.words block idx),
    d,
    rw (==_ne (d.words block idx) 0 ne),
    (ne, p.target_used ne, refl, (λ s u. u), (λ s i u m _. refl), p.valid),
  )
  | yes e ↦
      fresh e
        (free_map_allocate_lem bitmap_write is_map d.free_map d.words 1 only p.valid (omega arith))
]
  where
    fresh :
        d.words block idx ≡ 0
        → Allocates bitmap_write d.free_map d.words 1 is_map
        → Follows is_map bitmap_write d block idx
    fresh e (none, b, w, takes, (v, size, same_bits), k) = (
      none,
      record { free_map = record d.free_map { map = b }; words = w },
      rw e (rw takes refl),
      (same_bits, k),
    )
    fresh e (some sector, b, w, takes, (first, c), k) =
        let d₁ : Disk = record { free_map = record d.free_map { map = b }; words = w } in
        (
          some sector,
          record d₁ { words = link d₁ block idx sector },
          rw e (rw takes refl),
          link-Followed is_map d d₁ block idx sector p first c k,
        )

-- A pointer that names a sector is followed to it, and nothing changes.
follow_again :
    (bitmap_write : Writer) (d : Disk) (block idx sector : ℕ)
    → sector ≢ 0
    → d.words block idx ≡ sector
    → follow bitmap_write d block idx ≡ some (some sector, d)
unfolding follow
follow_again bitmap_write d block idx sector ne e = rw e (rw (==_ne sector 0 ne) refl)

-- That the sector, if there is one, is found again and without a change.
abbrev pub FoundAgain : ℕ → ℕ → Option ℕ → Disk → Type 0
FoundAgain inode_sector pos none d = Unit
FoundAgain inode_sector pos (some sector) d =
    (bitmap_write : ℕ → Writer)
    → byte_to_sector bitmap_write d inode_sector pos ≡ some (some sector, d)

byte_to_sector-direct :
    (bitmap_write : ℕ → Writer) (d : Disk) (inode_sector pos : ℕ)
    → pos < 63488
    → byte_to_sector bitmap_write d inode_sector pos
      ≡ follow (bitmap_write 0) d inode_sector (3 + direct_sector_idx pos)
unfolding byte_to_sector direct_sector_idx
byte_to_sector-direct bitmap_write d inode_sector pos h =
    rw (lt→ltb pos 8388608 (omega arith), lt→ltb (pos / 512) 124 (omega arith)) refl

-- byte_to_sector, for an offset within the direct sectors, with a valid free map that has in use
-- sector 0, the inode's sector and the sector that the inode names there, if it names one, and where
-- bitmap_write, which may fail, writes to sectors of the free map's file only, does not panic. Where it
-- returns a sector, that is in use, is not sector 0 and is the one that the inode names, no word of
-- another sector that was in use and is not the free map's, nor another word of the inode's sector if
-- this is not the free map's, has changed, and the same call on the disk that it leaves returns the same
-- sector and changes nothing, whatever bitmap_write would do; else the sectors in use are as before, and
-- so are all words of the sectors that are not the free map's.
pub byte_to_sector_lem :
    (is_map : ℕ → Bool) (bitmap_write : ℕ → Writer) (d : Disk) (inode_sector pos : ℕ)
    → pos < 63488
    → OnlyMap (bitmap_write 0) is_map
    → CanFollow d inode_sector (3 + direct_sector_idx pos)
    → (r : Option ℕ) × (d' : Disk) × (byte_to_sector bitmap_write d inode_sector pos ≡ some (r, d'))
      × Followed is_map d inode_sector (3 + direct_sector_idx pos) r d'
      × FoundAgain inode_sector pos r d'
byte_to_sector_lem is_map bitmap_write d inode_sector pos h only p =
    let (r, d', e, f) =
      follow-Followed is_map (bitmap_write 0) d inode_sector (3 + direct_sector_idx pos) only p in
    (r, d', byte_to_sector-direct bitmap_write d inode_sector pos h ∙ e, f, again r d' f)
  where
    again :
        (r : Option ℕ) (d' : Disk)
        → Followed is_map d inode_sector (3 + direct_sector_idx pos) r d'
        → FoundAgain inode_sector pos r d'
    again none d' f = tt
    again (some sector) d' f = λ w.
        (byte_to_sector-direct w d' inode_sector pos h
          ∙ follow_again (w 0) d' inode_sector (3 + direct_sector_idx pos) sector f.0 f.2)
