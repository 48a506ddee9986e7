-- ===== src/GrowStack.antt =====
-- pintos_3/src/vm/growstack.c: which page faults grow the stack. Addresses are 32-bit numbers.
pub mod Access
mod Tests
use buaa755os.Base.{
  ℕ, ◌+◌, ◌-◌, ◌*◌, ◌/◌, ◌%◌, ◌^◌, Bool, true, false, ◌&&◌, ◌||◌, Option, none, some, if◌then◌else◌,
  ◌==◌, leb, update,
}

abbrev pub page_size : ℕ
page_size = 4096

abbrev pub phys_base : ℕ
phys_base = 3221225472

-- The lowest address of the stack, despite its name.
abbrev pub max_stack_size : ℕ
max_stack_size = phys_base - page_size * 64

-- The two differences are taken modulo 2 ^ 32.
unfoldable pub is_stack_access : ℕ → ℕ → Bool
is_stack_access esp vaddr =
    leb max_stack_size vaddr
    && ((esp + 2 ^ 32 - vaddr) % 2 ^ 32 == 8
        || (esp + 2 ^ 32 - vaddr) % 2 ^ 32 == 32
        || leb esp vaddr)

-- What the page information says of a page that holds zeros and is written to swap: its address.
pub record ZeroPage : Type 0 where
  pub upage : ℕ

abbrev pub pg_round_down : ℕ → ℕ
pg_round_down vaddr = vaddr / page_size * page_size

unfoldable pub has_info : Option ZeroPage → Bool
has_info none = false
has_info (some page) = true

-- The page information by page address, with zero pages alone. `created` says whether there was
-- memory for a new one.
unfoldable pub maybe_grow_stack : Bool → ℕ → (ℕ → Option ZeroPage) → ℕ → ℕ → Option ZeroPage
unfolding is_stack_access has_info
maybe_grow_stack created esp info vaddr =
    let upage = pg_round_down vaddr in
    if has_info (info upage)
    then info
    else (if is_stack_access esp vaddr && created
        then update info upage (some (record { upage = upage }))
        else info)
