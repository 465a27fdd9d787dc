-- ===== src/Prelude/Words.antt =====
-- Rust's `u64` arithmetic in a release build, which wraps, and `u64::div_ceil`.
use Prim.Native.Nat.{ℕ, ◌+◌, ◌-◌, ◌/◌, ◌%◌, ◌^◌, ◌*◌, ◌≤◌, ◌<◌}
use mathlib.Core.Path.{◌≡◌, subst}
use mathlib.Core.Option.{Option, none, some}
use native.Mathlib.Omega.{arith}
use mathlib.Core.Logic.{inl, inr}
use native.Mathlib.Nat.{div-add-mod, mod-lt}
use velochain.Prelude.Tests.{◌==◌, if◌then◌else◌, Bool-cases, tests, ==→eq, ==_false→ne}

abbrev pub u64_mod : ℕ
u64_mod = 2 ^ 64

abbrev pub add64 : ℕ → ℕ → ℕ
add64 a b = (a + b) % u64_mod

-- `a - b` on `u64`: below zero it wraps.
abbrev pub sub64 : ℕ → ℕ → ℕ
sub64 a b = (a + u64_mod - b) % u64_mod

-- On `usize` and on `u64` where the result is known to fit.
abbrev pub saturating_sub : ℕ → ℕ → ℕ
saturating_sub a b = a - b

-- The quotient rounded up.
abbrev pub ceil : ℕ → ℕ → ℕ
ceil a b = if a % b == 0 then a / b else a / b + 1

-- `none` is the panic on a zero divisor.
unfoldable pub div_ceil : ℕ → ℕ → Option ℕ
div_ceil a b = if b == 0 then none else some (ceil a b)

pub div_ceil_total : (a b : ℕ) → 0 < b → (q : ℕ) × (div_ceil a b ≡ some q)
unfolding div_ceil
div_ceil_total a b h = (ceil a b, ground arith)

ceil_bounds : (a b : ℕ) → 0 < b → (a ≤ ceil a b * b) × (ceil a b * b < a + b)
ceil_bounds a b h = elim (Bool-cases (a % b == 0)) [
  | inl exact ↦ rw exact (omega (tests, div-add-mod a b, ==→eq (a % b) 0 exact))
  | inr over ↦ rw over (omega (tests, div-add-mod a b, ==_false→ne (a % b) 0 over, mod-lt a h))
]

pub div_ceil_bounds : (a b q : ℕ) → 0 < b → div_ceil a b ≡ some q → (a ≤ q * b) × (q * b < a + b)
unfolding div_ceil
div_ceil_bounds a b q h e =
    subst (λ x. (a ≤ x * b) × (x * b < a + b)) (ground arith) (ceil_bounds a b h)
