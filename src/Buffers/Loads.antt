-- ===== src/Buffers/Loads.antt =====
-- buffers.c: the invariant after load_buffer gives a buffer another sector.
use mathlib.Core.Path.{subst}
use buaa755os.Base.{ℕ, ◌≡◌, ◌≢◌, refl, Bool, true, false, List, [], ◌∷◌, inl, inr, sym, ◌∙◌}
use buaa755os.Buffers.{Buffer, uint_max, set_buffer}
use buaa755os.Buffers.Search.{Absent}
use buaa755os.Buffers.Steps.{Stage, State, goes_on}
use buaa755os.Buffers.Turns.{loads, evicts, Loadable}
use buaa755os.Buffers.Invariant.{Wants, Clean, Inv}
use buaa755os.Buffers.Moves.{updates, stays, quiet, unused-free}

-- Nobody waits for the buffer, whatever its sector.
nobody : (n s s' : ℕ) (w : List ℕ) → n ≡ 0 → Wants n s w → Wants n s' w
nobody n s s' [] z h = h
nobody n s s' (x ∷ w) z (k, q, t, h) = absurd (k z)

-- A sector that no buffer of the list has is not another buffer's.
no_other :
    (m : State) (s j : ℕ)
    → Inv m
    → s ≢ uint_max
    → Absent m.cache.buffers s m.cache.cache
    → (s ≢ (m.cache.buffers j).sector) × (s ≢ (m.cache.buffers j).evicting_sector)
no_other m s j v n a = elim (v.listed j) [
  | inl o ↦ a j o
  | inr (e, f) ↦ ((λ q. n (q ∙ e)), (λ q. n (q ∙ f)))
]

pub loads-Inv :
    (m : State) (i s : ℕ) (is_meta : Bool)
    → Inv m
    → s ≢ uint_max
    → (m.cache.buffers i).dirty ≡ false
    → Loadable m.cache s i
    → Inv (goes_on m i (set_buffer m.cache i (loads (m.cache.buffers i) s is_meta)) Stage.loading)
loads-Inv m i s is_meta v n d (w, u, a, o) =
    let (l, ws) = v.each i in
    let (st, (u', e, ld, k)) = unused-free (m.stage i) (m.cache.buffers i) m.contents l u in
    quiet m (goes_on m i (set_buffer m.cache i b) Stage.loading) i
      (record { buffer = b; stage = Stage.loading; wanted = m.wanted i }) v
      (updates m.cache.buffers i b) (updates m.stage i Stage.loading) (stays m.wanted i) refl refl
      refl
      (
        ((refl, e, n), d),
        nobody (m.cache.buffers i).waiting (m.cache.buffers i).sector s (m.wanted i) w ws,
      )
      (λ j q.
        let (f, g) = no_other m s j v n a in
        ((λ z. absurd (f z)), (λ z. absurd (g z)), (λ z. e), (λ z. e)))
      (inl o) (λ t q c. subst (λ st. Clean st (m.cache.buffers i) t) (sym st) (λ z. d))
  where
    b : Buffer
    b = loads (m.cache.buffers i) s is_meta

pub evicts-Inv :
    (m : State) (i s : ℕ) (is_meta : Bool)
    → Inv m
    → s ≢ uint_max
    → (m.cache.buffers i).dirty ≡ true
    → Loadable m.cache s i
    → Inv (goes_on m i (set_buffer m.cache i (evicts (m.cache.buffers i) s is_meta)) Stage.evicting)
evicts-Inv m i s is_meta v n d (w, u, a, o) =
    let (l, ws) = v.each i in
    let (st, (u', e, ld, k)) = unused-free (m.stage i) (m.cache.buffers i) m.contents l u in
    quiet m (goes_on m i (set_buffer m.cache i b) Stage.evicting) i
      (record { buffer = b; stage = Stage.evicting; wanted = m.wanted i }) v
      (updates m.cache.buffers i b) (updates m.stage i Stage.evicting) (stays m.wanted i) refl refl
      refl
      (
        (refl, k d, n, ld (k d)),
        nobody (m.cache.buffers i).waiting (m.cache.buffers i).sector s (m.wanted i) w ws,
      )
      (λ j q.
        let (f, g) = no_other m s j v n a in
        let (f', g', h, k) = v.apart i j q in ((λ z. absurd (f z)), (λ z. absurd (g z)), f', g'))
      (inl o) (λ t q c. subst (λ st. Clean st (m.cache.buffers i) t) (sym st) (λ z. absurd (c z)))
  where
    b : Buffer
    b = evicts (m.cache.buffers i) s is_meta
