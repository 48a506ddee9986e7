-- ===== src/Buffers/Transfers.antt =====
-- buffers.c: the invariant after a sector is written to the device or read from it, and after the
-- holder of a buffer writes to its bytes.
use mathlib.Core.Path.{subst}
use buaa755os.Base.{
  ℕ, ◌≡◌, ◌≢◌, refl, Bool, some, true, false, update, update_self, update_ne, inl, inr, sym, ◌∙◌,
}
use buaa755os.Buffers.{
  Sector, Buffer, Cache, uint_max, set_buffer, write_evicted, write_flushed, end_eviction,
  read_buffer,
}
use buaa755os.Buffers.Steps.{Stage, State, goes_on, writes}
use buaa755os.Buffers.Invariant.{
  slot, Slot, StageInv, Wants, Apart, Clean, CleanSlot, Inv, Change-Inv, same_or,
}
use buaa755os.Buffers.Moves.{updates, stays, quiet, slot_self, slot_others, clean_all}

-- What a buffer at a known stage tells of itself.
pub staged :
    (m : State) (i : ℕ) (st : Stage)
    → Inv m
    → m.stage i ≡ st
    → StageInv st (m.cache.buffers i) m.contents
      × Wants (m.cache.buffers i).waiting (m.cache.buffers i).sector (m.wanted i)
staged m i st v e =
    let (l, ws) = v.each i in (subst (λ st. StageInv st (m.cache.buffers i) m.contents) e l, ws)

-- One of the buffer's sectors is written to the device.
to_device :
    (m : State) (i t : ℕ) (st : Stage)
    → Inv m
    → m.contents t ≡ (m.cache.buffers i).bytes
    → StageInv st (m.cache.buffers i) m.contents
    → ((s : ℕ) → t ≢ s → CleanSlot (slot m i) s)
    → Inv (
        goes_on m i
          (record (m.cache) { fs_device = update m.cache.fs_device t (m.cache.buffers i).bytes })
          st)
to_device m i t st v e l c =
    let (l', ws) = v.each i in
    Change-Inv m m' i x v (record {
      self = slot_self m m' i x (stays m.cache.buffers i) (updates m.stage i st) (stays m.wanted i);
      others =
          slot_others m m' i x (stays m.cache.buffers i) (updates m.stage i st) (stays m.wanted i);
      local = (l, ws);
      kept = λ j n. v.each j;
      away = v.apart i;
      here = v.listed i;
      there = λ j n o. o;
      written = λ s n d f. elim (same_or t s) [
        | inl q ↦
            subst (λ s. m.contents s ≡ m'.cache.fs_device s) q
              (e ∙ sym (update_self m.cache.fs_device t (m.cache.buffers i).bytes))
        | inr q ↦
            v.saved s n (clean_all m i s (c s q) f)
            ∙ sym (update_ne m.cache.fs_device t s (m.cache.buffers i).bytes q)
      ];
    })
  where
    m' : State
    m' =
        goes_on m i
          (record (m.cache) { fs_device = update m.cache.fs_device t (m.cache.buffers i).bytes }) st

    x : Slot
    x = record { buffer = m.cache.buffers i; stage = st; wanted = m.wanted i }

pub evict_writes-Inv :
    (m : State) (i : ℕ)
    → Inv m
    → m.stage i ≡ Stage.evicting
    → Inv (goes_on m i (write_evicted m.cache i) Stage.evicted)
unfolding write_evicted
evict_writes-Inv m i v e =
    let ((u, ev, n, k), ws) = staged m i Stage.evicting v e in
    to_device m i (m.cache.buffers i).evicting_sector Stage.evicted v k (u, ev, n)
      (λ s d. subst (λ st. Clean st (m.cache.buffers i) s) (sym e) d)

pub flush_writes-Inv :
    (m : State) (i : ℕ)
    → Inv m
    → m.stage i ≡ Stage.flushing
    → Inv (goes_on m i (write_flushed m.cache i) Stage.flushed)
unfolding write_flushed
flush_writes-Inv m i v e =
    let (((u, ev, n), k), ws) = staged m i Stage.flushing v e in
    to_device m i (m.cache.buffers i).sector Stage.flushed v (k n) ((u, ev, n), k)
      (λ s d. subst (λ st. Clean st (m.cache.buffers i) s) (sym e) d)

pub evict_ends-Inv :
    (m : State) (i : ℕ)
    → Inv m
    → m.stage i ≡ Stage.evicted
    → Inv (goes_on m i (end_eviction m.cache i) Stage.loading)
unfolding end_eviction
evict_ends-Inv m i v e =
    let ((u, ev, n), ws) = staged m i Stage.evicted v e in
    quiet m (goes_on m i (set_buffer m.cache i b) Stage.loading) i
      (record { buffer = b; stage = Stage.loading; wanted = m.wanted i }) v
      (updates m.cache.buffers i b) (updates m.stage i Stage.loading) (stays m.wanted i) refl refl
      refl (((u, refl, n), refl), ws)
      (λ j q. let (f, g, h, k) = v.apart i j q in (f, g, (λ z. refl), (λ z. refl)))
      (elim (v.listed i) [ inl o ↦ inl o | inr (q, q') ↦ absurd (n q) ])
      (λ s q c. subst (λ st. Clean st (m.cache.buffers i) s) (sym e) tt)
  where
    b : Buffer
    b = record (m.cache.buffers i) { evicting_sector = uint_max; dirty = false }

-- A buffer has nothing of another buffer's sector.
Apart-Clean : (st : Stage) (a b : Buffer) → a.sector ≢ uint_max → Apart a b → Clean st b a.sector
Apart-Clean Stage.free a b n (f, g, h, k) = λ e. absurd (n (f (sym e)))
Apart-Clean Stage.evicting a b n (f, g, h, k) = λ e. n (g (sym e))
Apart-Clean Stage.evicted a b n p = tt
Apart-Clean Stage.loading a b n p = tt
Apart-Clean (Stage.held wrote) a b n (f, g, h, k) = λ e. absurd (n (f (sym e)))
Apart-Clean Stage.flushing a b n (f, g, h, k) = λ e. n (f (sym e))
Apart-Clean Stage.flushed a b n p = tt

abbrev pub filled : Cache → ℕ → Buffer
filled c i = record (c.buffers i) { bytes = c.fs_device (c.buffers i).sector }

pub read_lem :
    (m : State) (i : ℕ)
    → Inv m
    → m.stage i ≡ Stage.loading
    → read_buffer m.cache i ≡ some (set_buffer m.cache i (filled m.cache i))
unfolding read_buffer
read_lem m i v e = let (((u, ev, n), d), ws) = staged m i Stage.loading v e in rw ev refl

pub reads-Inv :
    (m : State) (i : ℕ)
    → Inv m
    → m.stage i ≡ Stage.loading
    → Inv (goes_on m i (set_buffer m.cache i (filled m.cache i)) (Stage.held false))
reads-Inv m i v e =
    let (((u, ev, n), d), ws) = staged m i Stage.loading v e in
    let idle = λ (s : ℕ). subst (λ st. Clean st (m.cache.buffers i) s) (sym e) tt in
    quiet m (goes_on m i (set_buffer m.cache i b) (Stage.held false)) i
      (record { buffer = b; stage = Stage.held false; wanted = m.wanted i }) v
      (updates m.cache.buffers i b) (updates m.stage i (Stage.held false)) (stays m.wanted i) refl
      refl refl
      (
        (
          (u, ev, n),
          λ z. v.saved b.sector n (
              clean_all m i b.sector (idle b.sector) (λ j q.
                Apart-Clean (m.stage j) (m.cache.buffers i) (m.cache.buffers j) n (v.apart i j q))),
        ),
        ws,
      )
      (v.apart i) (v.listed i) (λ s q c. idle s)
  where
    b : Buffer
    b = filled m.cache i

-- A change of what other sectors hold is nothing to a buffer.
kept_lem :
    (st : Stage) (b : Buffer) (k k' : ℕ → Sector)
    → (b.sector ≢ uint_max → k' b.sector ≡ k b.sector)
    → (b.evicting_sector ≢ uint_max → k' b.evicting_sector ≡ k b.evicting_sector)
    → StageInv st b k
    → StageInv st b k'
kept_lem Stage.free b k k' f g (u, e, l, d) = (u, e, (λ n. f n ∙ l n), d)
kept_lem Stage.evicting b k k' f g (u, e, n, l) = (u, e, n, g e ∙ l)
kept_lem Stage.evicted b k k' f g h = h
kept_lem Stage.loading b k k' f g h = h
kept_lem (Stage.held wrote) b k k' f g (h, l) = (h, λ n. f n ∙ l n)
kept_lem Stage.flushing b k k' f g (h, l) = (h, λ n. f n ∙ l n)
kept_lem Stage.flushed b k k' f g (h, l) = (h, λ n. f n ∙ l n)

pub holder_writes-Inv :
    (m : State) (i : ℕ) (wrote : Bool) (bytes : Sector)
    → Inv m
    → m.stage i ≡ Stage.held wrote
    → Inv (writes m i bytes)
holder_writes-Inv m i wrote bytes v e =
    let (((u, ev, n), l), ws) = staged m i (Stage.held wrote) v e in
    Change-Inv m m' i x v (record {
      self =
          slot_self m m' i x (updates m.cache.buffers i b) (updates m.stage i (Stage.held true))
            (stays m.wanted i);
      others =
          slot_others m m' i x (updates m.cache.buffers i b) (updates m.stage i (Stage.held true))
            (stays m.wanted i);
      local = (((u, ev, n), λ z. update_self m.contents b.sector bytes), ws);
      kept = λ j q.
          let (lj, wj) = v.each j in
          let (f, g, h, k) = v.apart i j q in
          (
            kept_lem (m.stage j) (m.cache.buffers j) m.contents m'.contents
                (λ z. update_ne m.contents b.sector (m.cache.buffers j).sector bytes (λ r. n (f r)))
                (λ z.
                  update_ne m.contents b.sector (m.cache.buffers j).evicting_sector bytes
                    (λ r. n (g r)))
                lj,
            wj,
          );
      away = v.apart i;
      here = v.listed i;
      there = λ j q o. o;
      written = λ s q c f. elim (same_or b.sector s) [
        | inl r ↦ let (d, t) = c r in absurd cc
        | inr r ↦
            update_ne m.contents b.sector s bytes r
            ∙ v.saved s q (
                clean_all m i s
                  (subst (λ st. Clean st (m.cache.buffers i) s) (sym e) (λ z. absurd (r z))) f)
      ];
    })
  where
    b : Buffer
    b = record (m.cache.buffers i) { bytes = bytes }

    m' : State
    m' = writes m i bytes

    x : Slot
    x = record { buffer = b; stage = Stage.held true; wanted = m.wanted i }
