-- ===== src/FrameTable/Visits.antt =====
-- frametable.c: what the visit of one frame says.
use mathlib.Core.Path.{subst}
use buaa755os.Base.{
  ℕ, ◌≡◌, refl, Bool, true, false, List, [], ◌∷◌, if◌then◌else◌, ◌==◌, ◌∙◌, sym, ap, arith,
}
use buaa755os.HashTable.Buckets.{OneOf}
use buaa755os.FrameTable.{FrameTable, clear_accessed, Visit, visited, visit_pages, visit}
use buaa755os.FrameTable.Accessed.{any_accessed, is_idle, Cleared, clear_accessed_lem}

-- The table with other bits and another hand.
abbrev pub turned : FrameTable → ℕ → (ℕ → Bool) → FrameTable
turned t hand bits = record t { clock_hand = hand; accessed = bits }

-- What the visit of a frame says.
abbrev pub VisitResult : FrameTable → ℕ → Visit → Type 0
VisitResult t f (Visit.finds t') =
    (bits : ℕ → Bool) × (t' ≡ record t { accessed = bits })
    × Cleared t.accessed bits (t.page_info_list f)
    × (is_idle t f ≡ true)
VisitResult t f (Visit.passes t') =
    (bits : ℕ → Bool) × (t' ≡ record t { accessed = bits })
    × ((t.lock f ≡ 0 → (q : ℕ) → OneOf q (t.page_info_list f) → bits q ≡ false)
        × ((q : ℕ) → (t.lock f ≡ 0 → OneOf q (t.page_info_list f) → ⊥) → bits q ≡ t.accessed q))
    × (is_idle t f ≡ false)
VisitResult t f Visit.visit_fails = t.page_info_list f ≡ []

pub visit_lem : (t : FrameTable) (f : ℕ) → VisitResult t f (visit t f)
unfolding visit
visit_lem t f = locked (t.lock f == 0) refl
  where
    pages : List ℕ
    pages = t.page_info_list f

    cleared :
        (a : Bool) (bits : ℕ → Bool)
        → (t.lock f == 0) ≡ true
        → a ≡ any_accessed t.accessed pages
        → Cleared t.accessed bits pages
        → VisitResult t f (visited t (a, bits))
    cleared true bits u e c =
        (bits, refl, ((λ z. c.0), λ q n. c.1 q (n (ground arith))), rw (u, sym e) refl)
    cleared false bits u e c = (bits, refl, c, rw (u, sym e) refl)

    some_pages :
        (ps : List ℕ) → pages ≡ ps → (t.lock f == 0) ≡ true → VisitResult t f (visit_pages t ps)
    some_pages [] e u = e
    some_pages (p ∷ ps) e u =
        let (a, c, k) = clear_accessed_lem t.accessed (p ∷ ps) false in
        cleared (clear_accessed t.accessed (p ∷ ps) false).0
          (clear_accessed t.accessed (p ∷ ps) false).1 u (a ∙ ap (any_accessed t.accessed) (sym e))
          (subst (Cleared t.accessed (clear_accessed t.accessed (p ∷ ps) false).1) (sym e) c)

    locked :
        (b : Bool)
        → (t.lock f == 0) ≡ b
        → VisitResult t f (if b then visit_pages t pages else Visit.passes t)
    locked true u = some_pages pages refl u
    locked false u = (t.accessed, refl, ((λ z. absurd (ground arith)), (λ q n. refl)), rw u refl)
