-- ===== src/Base/Update.antt =====
-- Memory as a function from addresses, and writes to it.
use Prim.Native.Nat.{ℕ}
use mathlib.Core.Path.{◌≡◌}
use mathlib.Core.Logic.{◌≢◌}
use native.Mathlib.Omega.{arith}
use buaa755os.Base.Tests.{◌==◌, if◌then◌else◌, ==_ne}

-- A write at an address.
abbrev pub update {ℓ} : {A : Type ℓ} → (ℕ → A) → ℕ → A → ℕ → A
update f i v j = if i == j then v else f j

pub update_self {ℓ} : {A : Type ℓ} (f : ℕ → A) (t : ℕ) (x : A) → update f t x t ≡ x
update_self f t x = ground arith

pub update_ne {ℓ} : {A : Type ℓ} (f : ℕ → A) (t u : ℕ) (x : A) → t ≢ u → update f t x u ≡ f u
update_ne f t u x h = rw (==_ne t u h)
