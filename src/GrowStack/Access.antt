-- ===== src/GrowStack/Access.antt =====
-- growstack.c: which accesses below the stack pointer grow the stack.
use buaa755os.Base.{
  ℕ, ◌-◌, ◌^◌, ◌≤◌, ◌<◌, ◌≡◌, refl, Bool, true, false, ◌&&◌, Option, none, some, if◌then◌else◌,
  ◌==◌, arith, inl, inr, ◌⊎◌, ap, sym, ◌∙◌, update, Bool-cases, ==_iff,
}
use buaa755os.GrowStack.{
  ZeroPage, max_stack_size, pg_round_down, is_stack_access, has_info, maybe_grow_stack,
}

-- An access 4 bytes below the stack pointer, that of a push, is not taken for a stack access, so the
-- stack does not grow by it, whatever pages there are.
pub push_refused :
    (created : Bool) (esp : ℕ) (info : ℕ → Option ZeroPage)
    → 4 ≤ esp
    → esp < 2 ^ 32
    → maybe_grow_stack created esp info (esp - 4) ≡ info
unfolding maybe_grow_stack
push_refused created esp info lo hi = go (has_info (info (pg_round_down (esp - 4))))
  where
    refused : is_stack_access esp (esp - 4) ≡ false
    refused = unfold is_stack_access in ground arith

    go :
        (c : Bool)
        → (if c
            then info
            else (if is_stack_access esp (esp - 4) && created
                then update info
                    (pg_round_down (esp - 4))
                    (some (record { upage = pg_round_down (esp - 4) }))
                else info))
          ≡ info
    go true = refl
    go false = rw refused refl

-- Growing the stack takes no page away and changes none, and gives a page only to an address in the
-- region of the stack.
pub grow_lem :
    (created : Bool) (esp : ℕ) (info : ℕ → Option ZeroPage) (vaddr p : ℕ)
    → (maybe_grow_stack created esp info vaddr p ≡ info p)
      ⊎ ((info p ≡ none) × (p ≡ pg_round_down vaddr) × (max_stack_size ≤ vaddr))
unfolding maybe_grow_stack has_info
grow_lem created esp info vaddr p =
    go (info (pg_round_down vaddr)) refl (is_stack_access esp vaddr && created) refl
  where
    u : ℕ
    u = pg_round_down vaddr

    in_region : is_stack_access esp vaddr && created ≡ true → max_stack_size ≤ vaddr
    in_region h = unfold is_stack_access in ground arith

    go :
        (o : Option ZeroPage)
        → info u ≡ o
        → (g : Bool) → is_stack_access esp vaddr && created ≡ g
        → ((if has_info o
                then info
                else (if g then update info u (some (record { upage = u })) else info))
              p
            ≡ info p)
          ⊎ ((info p ≡ none) × (p ≡ u) × (max_stack_size ≤ vaddr))
    go (some page) e g h = inl refl
    go none e false h = inl refl
    go none e true h = elim (Bool-cases (u == p)) [
      | inl here ↦ let q = (==_iff u p).0 here in inr (ap info (sym q) ∙ e, sym q, in_region h)
      | inr away ↦ inl (rw away refl)
    ]
