-- ===== src/Prelude/Ranges.antt =====
-- A Boolean test for all numbers below a bound, and what it shows of one of them.
use Prim.Native.Nat.{ℕ, zero, suc, ◌<◌}
use mathlib.Core.Path.{◌≡◌}
use mathlib.Core.Logic.{inl, inr}
use mathlib.Core.Bool.{Bool, true, false}
use native.Mathlib.Omega.{arith}
use cloud_android_orchestrat.Prelude.Tests.{ltb, if◌then◌else◌, Bool-cases}

unfoldable pub every_below : (ℕ → Bool) → ℕ → Bool
every_below test zero = true
every_below test (suc n) = if test n then every_below test n else false

pub every_below-true :
    (test : ℕ → Bool) (n i : ℕ) → i < n → every_below test n ≡ true → test i ≡ true
unfolding every_below
every_below-true test zero i below passed = absurd (ground arith)
every_below-true test (suc n) i below passed = elim (Bool-cases (test n)) [
  | inl last ↦ elim (Bool-cases (ltb i n)) [
    | inl earlier ↦ every_below-true test n i (ground arith) (ground arith)
    | inr same ↦ let e : i ≡ n = ground arith in rw e last
  ]
  | inr failed ↦ absurd (ground arith)
]
