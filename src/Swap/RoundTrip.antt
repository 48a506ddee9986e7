-- ===== src/Swap/RoundTrip.antt =====
-- swap.c: a page that is written to swap is read back as it was, and no other page is touched.
use native.Mathlib.Decide.{dec_le}
use buaa755os.Base.{
  ℕ, zero, suc, ◌+◌, ◌*◌, ◌/◌, ◌%◌, ◌≤◌, ◌<◌, ◌≡◌, ◌≢◌, refl, Bool, true, false, some, List, update,
  update_self, update_ne, arith, inl, inr, sym, ap, ◌∙◌, ==_ne,
}
use buaa755os.Bitmap.{Bitmap, bitmap_error, bitmap_scan_and_flip, bitmap_all, bitmap_contains}
use buaa755os.Bitmap.Bits.{IsValid, bit_at, Changed, in_range, bitmap_set_multiple_lem}
use buaa755os.Bitmap.Scan.{Contains, bitmap_contains_lem}
use buaa755os.Bitmap.Alloc.{IsFirstRun, FlipResult, bitmap_scan_and_flip_lem, undo}
use buaa755os.Swap.{
  Swap, swap_map_allocate, swap_release, write_sectors, swap_write, read_sectors, swap_read,
}

-- The sectors from `sector` on hold the parts of the page from `i` on, and the others are as before.
record Written (n : ℕ) (device : ℕ → List ℕ) (sector : ℕ) (page : ℕ → List ℕ) (i : ℕ)
    (device' : ℕ → List ℕ) : Type 0 where
  parts : (j : ℕ) → j < n → device' (sector + j) ≡ page (i + j)
  below : (s : ℕ) → s < sector → device' s ≡ device s
  above : (s : ℕ) → sector + n ≤ s → device' s ≡ device s

write_sectors_lem :
    (n : ℕ) (device : ℕ → List ℕ) (sector : ℕ) (page : ℕ → List ℕ) (i : ℕ)
    → Written n device sector page i (write_sectors n device sector page i)
unfolding write_sectors
write_sectors_lem zero device sector page i = record {
  parts = λ j h. absurd (omega arith);
  below = λ s h. refl;
  above = λ s h. refl;
}
write_sectors_lem (suc n) device sector page i =
    let device₁ = update device sector (page i) in
    let device₂ = write_sectors n device₁ (sector + 1) page (i + 1) in
    let w = write_sectors_lem n device₁ (sector + 1) page (i + 1) in
    record {
      parts = part device₂ w;
      below = λ s h.
          w.below s (omega arith) ∙ update_ne device sector s (page i) (λ e. absurd (omega arith));
      above = λ s h.
          w.above s (omega arith) ∙ update_ne device sector s (page i) (λ e. absurd (omega arith));
    }
  where
    part :
        (d : ℕ → List ℕ)
        → Written n (update device sector (page i)) (sector + 1) page (i + 1) d
        → (j : ℕ) → j < suc n
        → d (sector + j) ≡ page (i + j)
    part d w zero h =
        let e : sector + 0 ≡ sector = omega arith in
        let e' : i ≡ i + 0 = omega arith in
        ap d e ∙ w.below sector (omega arith) ∙ update_self device sector (page i) ∙ ap page e'
    part d w (suc j) h =
        let e : sector + suc j ≡ sector + 1 + j = omega arith in
        let e' : i + 1 + j ≡ i + suc j = omega arith in
        ap d e ∙ w.parts j (omega arith) ∙ ap page e'

read_sectors_lem :
    (n : ℕ) (device : ℕ → List ℕ) (sector : ℕ) (page : ℕ → List ℕ) (i : ℕ)
    → ((j : ℕ) → j < n → read_sectors n device sector page i (i + j) ≡ device (sector + j))
      × ((m : ℕ) → m < i → read_sectors n device sector page i m ≡ page m)
unfolding read_sectors
read_sectors_lem zero device sector page i = ((λ j h. absurd (omega arith)), (λ m h. refl))
read_sectors_lem (suc n) device sector page i =
    let page₁ = update page i (device sector) in
    let (parts, below) = read_sectors_lem n device (sector + 1) page₁ (i + 1) in
    (
      part (read_sectors n device (sector + 1) page₁ (i + 1)) parts
          (below i (omega arith) ∙ update_self page i (device sector)),
      λ m h. below m (omega arith) ∙ update_ne page i m (device sector) (λ e. absurd (omega arith)),
    )
  where
    part :
        (p : ℕ → List ℕ)
        → ((j : ℕ) → j < n → p (i + 1 + j) ≡ device (sector + 1 + j))
        → p i ≡ device sector
        → (j : ℕ) → j < suc n
        → p (i + j) ≡ device (sector + j)
    part p parts first zero h =
        let e : i + 0 ≡ i = omega arith in
        let e' : sector ≡ sector + 0 = omega arith in ap p e ∙ first ∙ ap device e'
    part p parts first (suc j) h =
        let e : i + suc j ≡ i + 1 + j = omega arith in
        let e' : sector + 1 + j ≡ sector + suc j = omega arith in
        ap p e ∙ parts j (omega arith) ∙ ap device e'

-- The assertion of a release holds for a slot in use.
release_lem :
    (sw : Swap) (idx sector : ℕ)
    → sector / 8 ≡ idx
    → IsValid sw.swap_map
    → idx + 1 ≤ sw.swap_map.bit_cnt
    → bit_at sw.swap_map idx ≡ true
    → (b : Bitmap) × (swap_release sw sector ≡ some (record sw { swap_map = b }))
      × Changed sw.swap_map (in_range idx 1) false b
unfolding swap_release bitmap_all
release_lem sw idx sector e v room used = go (bitmap_contains_lem sw.swap_map idx 1 false v room)
  where
    go :
        (r : Bool) × (bitmap_contains sw.swap_map idx 1 false ≡ some r)
          × Contains sw.swap_map idx 1 false r
        → (b : Bitmap) × (swap_release sw sector ≡ some (record sw { swap_map = b }))
          × Changed sw.swap_map (in_range idx 1) false b
    go (true, has, (j, lo, hi, off)) =
        let here : j ≡ idx = omega arith in absurd (cc (ap (bit_at sw.swap_map) here, off, used))
    go (false, has, _) =
        let (b, sets, d) = bitmap_set_multiple_lem sw.swap_map idx 1 false v room in
        (b, rw (e, has, sets) refl, d)

-- What a page written to swap and read back leaves.
abbrev pub RoundTrip : Swap → (ℕ → List ℕ) → (ℕ → List ℕ) → Type 0
RoundTrip sw page old =
    (sector : ℕ) × (sw₁ : Swap) × (page' : ℕ → List ℕ) × (sw₂ : Swap) × (swap_write sw page
      ≡ some (sector, sw₁))
    × (swap_read sw₁ sector old ≡ some (page', sw₂))
    × ((i : ℕ) → i < 8 → page' i ≡ page i)
    × ((j : ℕ) → bit_at sw₂.swap_map j ≡ bit_at sw.swap_map j)
    × ((used i : ℕ)
        → bit_at sw.swap_map used ≡ true
        → i < 8
        → sw₂.device (used * 8 + i) ≡ sw.device (used * 8 + i))

-- A write of a page leaves the sectors of every other slot.
elsewhere :
    (device : ℕ → List ℕ) (idx used i : ℕ) (page : ℕ → List ℕ)
    → i < 8
    → idx ≢ used
    → write_sectors 8 device (idx * 8) page 0 (used * 8 + i) ≡ device (used * 8 + i)
elsewhere device idx used i page h ne =
    let w = write_sectors_lem 8 device (idx * 8) page 0 in
    elim (dec_le idx used) [
      | yes p ↦ w.above (used * 8 + i) (omega arith)
      | no p ↦ w.below (used * 8 + i) (omega arith)
    ]

-- The page at slot `idx`, once the map has been changed.
written :
    (sw : Swap) (page old : ℕ → List ℕ) (idx : ℕ) (b : Bitmap)
    → IsValid sw.swap_map
    → sw.swap_map.bit_cnt * 8 ≤ 4294967296
    → idx ≢ bitmap_error
    → bitmap_scan_and_flip sw.swap_map 0 1 false ≡ some (idx, b)
    → IsFirstRun sw.swap_map 0 1 false idx
    → Changed sw.swap_map (in_range idx 1) true b
    → RoundTrip sw page old
unfolding swap_write swap_map_allocate swap_read
written sw page old idx b v small ne flips first c =
    let sector = idx * 8 in
    let e : idx * 8 % 4294967296 ≡ sector = omega (arith, first.to) in
    let device' = write_sectors 8 sw.device sector page 0 in
    let w = write_sectors_lem 8 sw.device sector page 0 in
    let sw₁ : Swap = record { swap_map = b; device = device' } in
    let now_used : bit_at b idx ≡ true = ground (arith, c.bits idx) in
    let (b₂, releases, d) =
      release_lem sw₁ idx sector (omega arith) c.valid (omega (arith, c.size, first.to)) now_used in
    let (parts, _) = read_sectors_lem 8 device' sector old 0 in
    (
      sector,
      sw₁,
      read_sectors 8 device' sector old 0,
      record { swap_map = b₂; device = device' },
      rw (flips) (rw (==_ne idx bitmap_error ne) (rw e refl)),
      rw (releases) refl,
      (λ i h.
          (let z : i ≡ 0 + i = omega arith in
            ap (read_sectors 8 device' sector old 0) z
            ∙ parts i h
            ∙ w.parts i h
            ∙ ap page (sym z))),
      undo sw.swap_map b b₂ idx 1 first.run c d,
      λ used i on h.
          elsewhere sw.device idx used i page h
            (λ q. cc (ap (bit_at sw.swap_map) q, first.run idx (omega arith) (omega arith), on)),
    )

-- With a valid map of at most 2 ^ 32 sectors that has a free slot, swap_write does not panic, nor
-- does swap_read of the sector that it returns. The page read is the page written, the map is as it
-- was before the write, and the sectors of every slot that was in use hold what they held.
pub swap_round_trip :
    (sw : Swap) (page old : ℕ → List ℕ) (free : ℕ)
    → IsValid sw.swap_map
    → sw.swap_map.bit_cnt * 8 ≤ 4294967296
    → free < sw.swap_map.bit_cnt
    → bit_at sw.swap_map free ≡ false
    → RoundTrip sw page old
swap_round_trip sw page old free v small inside empty =
    go (bitmap_scan_and_flip_lem sw.swap_map 0 1 false v (omega arith) (omega arith))
  where
    go :
        (idx : ℕ) × (b : Bitmap) × (bitmap_scan_and_flip sw.swap_map 0 1 false ≡ some (idx, b))
          × FlipResult sw.swap_map 0 1 false idx b
        → RoundTrip sw page old
    go (idx, b, e, inl (ne, first, c)) = written sw page old idx b v small ne e first c
    go (idx, b, e, inr (err, absent, _)) = absurd (
        absent free (omega arith) (omega arith)
          (λ j lo hi. (let here : j ≡ free = omega arith in ap (bit_at sw.swap_map) here ∙ empty)))
