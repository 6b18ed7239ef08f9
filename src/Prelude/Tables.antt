-- ===== src/Prelude/Tables.antt =====
-- A test of a table: every number below a bound, by evaluation.
use Prim.Native.Nat.{ℕ, zero, suc, ◌<◌}
use mathlib.Core.Path.{◌≡◌, ◌∙◌, ap}
use mathlib.Core.Bool.{Bool, true, ◌&&◌}
use mathlib.Core.Logic.{◌⊎◌, inl, inr}
use native.Mathlib.Omega.{arith}

unfoldable pub passes_table : (test : ℕ → Bool) → (size : ℕ) → Bool
passes_table test zero = true
passes_table test (suc size) = passes_table test size && test size

last_or_before : (i size : ℕ) → i < suc size → (i ≡ size) ⊎ (i < size)
last_or_before i size lt = ground arith

both : (a b : Bool) → (a && b) ≡ true → (a ≡ true) × (b ≡ true)
both a b h = ground arith

pub passes_table-entry :
    (test : ℕ → Bool) (i size : ℕ) → i < size → passes_table test size ≡ true → test i ≡ true
unfolding passes_table
passes_table-entry test i zero lt h = absurd (omega arith)
passes_table-entry test i (suc size) lt h =
    let (before, last) = both (passes_table test size) (test size) h in
    elim (last_or_before i size lt) [
      | inl e ↦ ap test e ∙ last
      | inr lt' ↦ passes_table-entry test i size lt' before
    ]
