-- ===== src/Threads/Waiting.antt =====
-- The highest priority that waits for the locks of a thread, as the loop of thread_lock_released
-- finds it.
use buaa755os.Base.{
  ℕ, ◌≤◌, ◌≡◌, ◌≢◌, refl, true, false, none, some, List, [], ◌∷◌, if◌then◌else◌, ◌==◌, ltb, arith,
  Bool-cases, inl, inr, sym, ap, ltb→lt, ==_iff, ◌∙◌, ◌⊎◌,
}
use mathlib.Core.Path.{subst}
use native.Mathlib.Nat.{le_trans}
use buaa755os.KernelList.{list_max}
use buaa755os.KernelList.Ordered.{All, All-map, All-append, IsMax, list_max_lem}
use buaa755os.Threads.{Kernel, priority_of}
use buaa755os.Threads.Priority.{less_priority, highest_waiting, higher_of, higher, top_waiting}
use buaa755os.Threads.Wake.{All-middle}

-- No thread that waits for the lock has a priority above the bound.
abbrev pub WaitBelow : Kernel → ℕ → ℕ → Type 0
WaitBelow k bound lock = All (λ w. priority_of k w ≤ bound) (k.semas lock).waiters

-- So for every owned lock but the one that is released.
abbrev pub OthersBelow : Kernel → ℕ → List ℕ → ℕ → Type 0
OthersBelow k lock owned bound = All (λ l. lock ≢ l → WaitBelow k bound l) owned

highest_waiting-above :
    (k : Kernel) (lock : ℕ) (ws : List ℕ)
    → (k.semas lock).waiters ≡ ws
    → ((highest_waiting k lock ≡ none) × (ws ≡ []))
      ⊎ ((w : ℕ) × (highest_waiting k lock ≡ some w) × IsMax (priority_of k) ws w)
unfolding highest_waiting list_max
highest_waiting-above k lock [] e = inl (ap (list_max (less_priority k)) e, refl)
highest_waiting-above k lock (x ∷ xs) e =
    let (w, picked, m) = list_max_lem (priority_of k) x xs in
    inr (w, ap (list_max (less_priority k)) e ∙ picked, m)

-- `h` is the least number that is neither below `a` nor below the priority of a waiting thread.
abbrev IsLeast : Kernel → ℕ → ℕ → ℕ → Type 0
IsLeast k a owned h =
    (a ≤ h) × WaitBelow k h owned × ((b : ℕ) → a ≤ b → WaitBelow k b owned → h ≤ b)

greater_of :
    (a p : ℕ)
    → let h = (if ltb a p then p else a) in (a ≤ h) × (p ≤ h) × ((b : ℕ) → a ≤ b → p ≤ b → h ≤ b)
greater_of a p = elim (Bool-cases (ltb a p)) [
  | inl up ↦ rw up (omega (arith, ltb→lt a p up), omega arith, λ b x y. y)
  | inr stay ↦ rw stay (omega arith, ground arith, λ b x y. x)
]

higher-IsLeast : (k : Kernel) (owned highest : ℕ) → IsLeast k highest owned (higher k owned highest)
unfolding higher higher_of
higher-IsLeast k owned highest = go (highest_waiting-above k owned (k.semas owned).waiters refl)
  where
    ws : List ℕ
    ws = (k.semas owned).waiters

    go :
        ((highest_waiting k owned ≡ none) × (ws ≡ []))
          ⊎ ((w : ℕ) × (highest_waiting k owned ≡ some w) × IsMax (priority_of k) ws w)
        → IsLeast k highest owned (higher_of k highest (highest_waiting k owned))
    go (inl (e, empty)) =
        subst (λ o. IsLeast k highest owned (higher_of k highest o)) (sym e)
          (omega arith, subst (All (λ w. priority_of k w ≤ highest)) (sym empty) tt, λ b p _. p)
    go (inr (w, e, m)) =
        let p = priority_of k w in
        let (lo, hi, least) = greater_of highest p in
        subst (λ o. IsLeast k highest owned (higher_of k highest o)) (sym e)
          (
            lo,
            All-map ws (λ u q. le_trans q hi)
                (subst (All (λ u. priority_of k u ≤ p)) (sym m.split) (
                  All-append (λ u. priority_of k u ≤ p) m.before (w ∷ m.after)
                    (All-map m.before (λ u q. omega arith) m.less_before)
                    (omega arith, m.le_after))),
            λ b x y.
                least b x (All-middle (λ u. priority_of k u ≤ b) m.before w m.after ws m.split y),
          )

-- `top` is the least number not below `a` nor below the priority of a thread that waits for one of
-- the locks but the released one.
abbrev IsTopOf : Kernel → ℕ → List ℕ → ℕ → ℕ → Type 0
IsTopOf k lock ls a top =
    (a ≤ top) × OthersBelow k lock ls top × ((b : ℕ) → a ≤ b → OthersBelow k lock ls b → top ≤ b)

pub top_waiting-IsTopOf :
    (k : Kernel) (lock : ℕ) (ls : List ℕ) (highest : ℕ)
    → IsTopOf k lock ls highest (top_waiting k lock ls highest)
unfolding top_waiting
top_waiting-IsTopOf k lock [] highest = (omega arith, tt, λ b x y. x)
top_waiting-IsTopOf k lock (l ∷ ls) highest =
    go (λ a. top_waiting-IsTopOf k lock ls a) (Bool-cases (lock == l))
  where
    h : ℕ
    h = higher k l highest

    go :
        ((a : ℕ) → IsTopOf k lock ls a (top_waiting k lock ls a))
        → ((lock == l) ≡ true) ⊎ ((lock == l) ≡ false)
        → IsTopOf k lock (l ∷ ls) highest (top_waiting k lock ls (if lock == l then highest else h))
    go rest (inl is_it) =
        let (lo, all, least) = rest highest in
        subst
          (λ c. IsTopOf k lock (l ∷ ls) highest (top_waiting k lock ls (if c then highest else h)))
          (sym is_it)
          (lo, ((λ ne. absurd (ne ((==_iff lock l).0 is_it))), all), λ b x y. least b x y.1)
    go rest (inr stays) =
        let (hlo, hw, hleast) = higher-IsLeast k l highest in
        let (lo, all, least) = rest h in
        let ne : lock ≢ l = λ e. cc ((==_iff lock l).1 e, stays) in
        subst
          (λ c. IsTopOf k lock (l ∷ ls) highest (top_waiting k lock ls (if c then highest else h)))
          (sym stays)
          (
            le_trans hlo lo,
            ((λ _. All-map (k.semas l).waiters (λ w q. le_trans q lo) hw), all),
            λ b x y. least b (hleast b x (y.0 ne)) y.1,
          )
