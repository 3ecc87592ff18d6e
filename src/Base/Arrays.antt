-- ===== src/Base/Arrays.antt =====
-- C arrays as functions of the index. Bounds are tested where the array is accessed.
use native.Mathlib.Decide.{ℕ_discrete}
use Prim.Native.Nat.{ℕ}
use mathlib.Core.Path.{◌≡◌}
use mathlib.Core.Logic.{◌≢◌}
use native.Mathlib.Omega.{arith}
use hk232_assignment_os.Base.Tests.{◌==◌, if◌then◌else◌}

module _ {ℓ} {A : Type ℓ} where
  abbrev pub update : (ℕ → A) → ℕ → A → ℕ → A
  update f i v j = if i == j then v else f j

  pub update_self : (f : ℕ → A) (i : ℕ) (v : A) → update f i v i ≡ v
  update_self f i v = ground arith

  pub update_ne : (f : ℕ → A) (i j : ℕ) (v : A) → i ≢ j → update f i v j ≡ f j
  update_ne f i j v h = ground arith

  -- What holds of the new entry at its index, and of the others at theirs, holds of an array.
  pub update_all {κ} :
      (P : ℕ → A → Type κ) (f : ℕ → A) (i : ℕ) (v : A)
      → P i v
      → ((j : ℕ) → i ≢ j → P j (f j))
      → (j : ℕ) → P j (update f i v j)
  update_all P f i v new old j = elim (ℕ_discrete i j) [
    | yes same ↦ rw (← same) (rw (update_self f i v) new)
    | no other ↦ rw (update_ne f i j v other) (old j other)
  ]
