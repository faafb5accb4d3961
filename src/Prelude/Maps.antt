-- ===== src/Prelude/Maps.antt =====
-- Maps from the native numbers, as functions.
use Prim.Native.Nat.{ℕ}
use mathlib.Core.Path.{◌≡◌, refl}
use mathlib.Core.Bool.{false}
use native.Mathlib.Omega.{arith}
use curlev.Prelude.Tests.{◌==◌, if◌then◌else◌}

-- `f`, with `a` at `k`.
unfoldable pub set_at : {A : Type 0} → ℕ → A → (ℕ → A) → ℕ → A
set_at k a f n = if n == k then a else f n

pub set_at_here : {A : Type 0} (k : ℕ) (a : A) (f : ℕ → A) → set_at k a f k ≡ a
unfolding set_at
set_at_here k a f = ground arith

pub set_at_there :
    {A : Type 0} (k n : ℕ) (a : A) (f : ℕ → A) → (n == k) ≡ false → set_at k a f n ≡ f n
unfolding set_at
set_at_there k n a f e = rw e refl
