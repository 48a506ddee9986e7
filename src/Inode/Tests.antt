-- ===== src/Inode/Tests.antt =====
-- A disk of eight sectors, with an inode in sector 4 that has its first data sector only.
use buaa755os.Base.{
  ℕ, ◌+◌, ◌*◌, ◌<◌, ◌≡◌, ◌≢◌, refl, Bool, true, false, Option, some, [], ◌∷◌, ◌==◌, ◌&&◌, arith,
  update, update_ne, get_or, ap, if◌then◌else◌,
}
use buaa755os.Bitmap.Bits.{bit_at}
use buaa755os.FreeMap.{Writer}
use buaa755os.FreeMap.Alloc.{OnlyMap}
use buaa755os.Inode.{
  Disk, byte_to_sector, direct_sector_idx, indirect_sector_idx, dindirect_sector_idx,
}
use buaa755os.Inode.Index.{index_lem}
use buaa755os.Inode.Sector.{CanFollow, Followed, FoundAgain, byte_to_sector_lem}

-- The word that points to the data sector, and the others.
abbrev pointer : Bool → ℕ
pointer true = 5
pointer false = 0

-- Sectors 0, 1, 4 and 5 are in use.
abbrev disk : Disk
disk = record {
  free_map = record { map = record { bit_cnt = 8; bits = 51 ∷ [] }; has_file = true };
  words = λ s i. pointer (s == 4 && i == 3);
}

disk-CanFollow : (idx : ℕ) → CanFollow disk 4 idx
unfolding buaa755os.Bitmap.Word.test_mask
disk-CanFollow idx = record {
  valid = record { storage = omega arith; small = omega arith };
  zero_used = refl;
  block_used = refl;
  target_used = λ ne. target (idx == 3) ne;
}
  where
    target : (c : Bool) → pointer c ≢ 0 → bit_at disk.free_map.map (pointer c) ≡ true
    target true ne = refl
    target false ne = refl

-- bitmap_write writes the map's first word to the data sector of the map's file, sector 1.
abbrev writes_map : Writer
writes_map b words = (true, update words 1 (λ i. if i == 0 then get_or b.bits 0 0 else 0))

writes_map-OnlyMap : OnlyMap writes_map (λ s. s == 1)
writes_map-OnlyMap b words s i m =
    ap (λ g. g i)
      (update_ne words 1 s (λ i. if i == 0 then get_or b.bits 0 0 else 0)
        (λ e. absurd (ground arith)))

byte_to_sector_example :
    (r : Option ℕ) × (d : Disk) × (byte_to_sector (λ l. writes_map) disk 4 700 ≡ some (r, d))
    × Followed (λ s. s == 1) disk 4 (3 + direct_sector_idx 700) r d
    × FoundAgain 4 700 r d
byte_to_sector_example =
    byte_to_sector_lem (λ s. s == 1) (λ l. writes_map) disk 4 700 (omega arith) writes_map-OnlyMap
      (disk-CanFollow (3 + direct_sector_idx 700))

index_example :
    (indirect_sector_idx 200000 < 128)
    × (dindirect_sector_idx 200000 < 128)
    × (indirect_sector_idx 200000 * 128 + dindirect_sector_idx 200000 + 124
        ≡ direct_sector_idx 200000)
index_example = index_lem 200000 (omega arith) (omega arith)
