-- ===== src/GrowStack/Tests.antt =====
-- growstack.c with a stack pointer in the region of the stack.
use buaa755os.Base.{ℕ, ◌-◌, ◌≡◌, refl, true, Option, none, some, if◌then◌else◌, ◌==◌}
use buaa755os.GrowStack.{ZeroPage, is_stack_access}

-- One page, below PHYS_BASE.
abbrev info : ℕ → Option ZeroPage
info p = if p == 3221221376 then some (record { upage = 3221221376 }) else none

pusha_taken : is_stack_access 3221221376 (3221221376 - 32) ≡ true
unfolding is_stack_access
pusha_taken = refl
