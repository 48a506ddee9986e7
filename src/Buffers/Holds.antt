-- ===== src/Buffers/Holds.antt =====
-- buffers.c: what a buffer acquired is to the sector it was acquired for.
use mathlib.Core.Path.{subst}
use buaa755os.Base.{
  ℕ, ◌-◌, ◌≡◌, ◌≢◌, refl, Bool, false, List, [], ◌∷◌, update_self, inl, inr, sym, ap, ◌∙◌,
}
use buaa755os.HashTable.Buckets.{OneOf, one_of-cons}
use buaa755os.Buffers.{Buffer, Cache, uint_max, Turn, set_buffer}
use buaa755os.Buffers.Steps.{State, must_wait}
use buaa755os.Buffers.Turns.{taken, awaited, loads, evicts, AcquireTurn}
use buaa755os.Buffers.Invariant.{Wants, Inv}
use buaa755os.Buffers.Moves.{unused-free}

-- No turn of an acquisition fails an assertion.
pub never_fails :
    (m : State) (s : ℕ) (is_meta : Bool)
    → Inv m
    → s ≢ uint_max
    → AcquireTurn m.cache s is_meta Turn.fails
    → ⊥
never_fails m s is_meta v n (i, u, h) =
    let (l, ws) = v.each i in
    let (st, (u', e, ld, d)) = unused-free (m.stage i) (m.cache.buffers i) m.contents l u in
    n (h ∙ e)

-- The buffer has the sector, and its bytes are what was last written to it.
abbrev pub Holds : State → ℕ → Cache → ℕ → Type 0
Holds m i c s = ((c.buffers i).sector ≡ s) × ((c.buffers i).bytes ≡ m.contents s)

-- What the buffer is to the sector acquired, by how the turn ends.
abbrev pub Acquired : State → ℕ → Turn → Type 0
Acquired m s Turn.idle = Unit
Acquired m s (Turn.waits_for i c) = OneOf s ((must_wait m i c).wanted i)
Acquired m s (Turn.has i c) = Holds m i c s
Acquired m s (Turn.writes_out i c) = (c.buffers i).sector ≡ s
Acquired m s (Turn.reads_in i c) = (c.buffers i).sector ≡ s
Acquired m s Turn.fails = ⊥

pub unused-Holds :
    (m : State) (i s : ℕ) (c : Cache) (b : Buffer)
    → Inv m
    → c ≡ set_buffer m.cache i b
    → b.sector ≡ (m.cache.buffers i).sector
    → b.bytes ≡ (m.cache.buffers i).bytes
    → (m.cache.buffers i).in_use ≡ false
    → s ≡ (m.cache.buffers i).sector
    → s ≢ uint_max
    → Holds m i c s
unused-Holds m i s c b v ec es eb u q n =
    let (l, ws) = v.each i in
    let (st, (u', ev, ld, d)) = unused-free (m.stage i) (m.cache.buffers i) m.contents l u in
    let e = ap (λ c. c.buffers i) ec ∙ update_self m.cache.buffers i b in
    (
      ap (λ b. b.sector) e ∙ (es ∙ sym q),
      ap (λ b. b.bytes) e ∙ (eb ∙ (sym (ld (λ z. n (q ∙ z))) ∙ ap m.contents (sym q))),
    )

pub acquired_lem :
    (m : State) (s : ℕ) (is_meta : Bool) (t : Turn)
    → Inv m
    → s ≢ uint_max
    → AcquireTurn m.cache s is_meta t
    → Acquired m s t
acquired_lem m s is_meta Turn.idle v n h = tt
acquired_lem m s is_meta Turn.fails v n h = never_fails m s is_meta v n h
acquired_lem m s is_meta (Turn.waits_for i c) v n (e, u, q) =
    subst (OneOf s) (sym (update_self m.wanted i ((c.buffers i).sector ∷ m.wanted i))) (
      subst (λ t. OneOf s (t ∷ m.wanted i))
        (q
          ∙ sym (
              ap (λ b. b.sector)
                (ap (λ c. c.buffers i) e
                  ∙ update_self m.cache.buffers i (awaited (m.cache.buffers i)))))
        (OneOf.first (m.wanted i)))
acquired_lem m s is_meta (Turn.has i c) v n (e, u, q) =
    unused-Holds m i s c (taken (m.cache.buffers i)) v e refl refl u q n
acquired_lem m s is_meta (Turn.writes_out i c) v n (e, d, l) =
    ap (λ b. b.sector)
      (ap (λ c. c.buffers i) e
        ∙ update_self m.cache.buffers i (evicts (m.cache.buffers i) s is_meta))
acquired_lem m s is_meta (Turn.reads_in i c) v n (e, d, l) =
    ap (λ b. b.sector)
      (ap (λ c. c.buffers i) e
        ∙ update_self m.cache.buffers i (loads (m.cache.buffers i) s is_meta))

pub wanted_lem :
    (waiting sector s : ℕ) (ws : List ℕ)
    → Wants waiting sector ws
    → OneOf s ws
    → (s ≡ sector) × (s ≢ uint_max)
wanted_lem w t s [] h o = elim o [ ]
wanted_lem w t s (x ∷ ws) (z, e, n, h) o = elim (one_of-cons o) [
  | inl q ↦ (q ∙ e, λ r. n (sym q ∙ r))
  | inr o ↦ wanted_lem (w - 1) t s ws h o
]
