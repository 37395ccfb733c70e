-- ===== src/Prelude/Floats.antt =====
-- Python's floats, which the program adds, multiplies, compares and rounds: a parameter of the model.
use mathlib.Core.Path.{◌≡◌}
use mathlib.Core.Bool.{Bool, true, false}
use Prim.Native.Nat.{ℕ}

-- `lt` is `<` on finite floats, a strict order in which "not less" is transitive.
pub record Floats : Type 1 where
  pub Float : Type 0
  pub of_ℕ : ℕ → Float
  pub add : Float → Float → Float
  pub mul : Float → Float → Float
  pub div : Float → Float → Float
  pub round : Float → ℕ → Float
  pub lt : Float → Float → Bool
  pub lt_asym : (x y : Float) → lt x y ≡ true → lt y x ≡ false
  pub not_lt_trans : (x y z : Float) → lt y x ≡ false → lt z y ≡ false → lt z x ≡ false
