-- ===== src/TensorDecode/Summary/Counts.antt =====
-- `tensorStats` of src/tensorDecode.ts: its counts, and its bounds over the finite values.
use vscode_cann_debugger.Base.{◌≤◌, true, false, ◌≡◌}
use vscode_cann_debugger.TensorDecode.Summary.{Arithmetic, Tally}

-- The laws of `<` on doubles, NaN included.
pub record IsOrder (a : Arithmetic) : Type 0 where
  pub irreflexive : (x : a.Number) → a.less x x ≡ false
  pub transitive : (x y z : a.Number) → a.less x y ≡ true → a.less y z ≡ true → a.less x z ≡ true

module _ (a : Arithmetic) where
  -- The bounds hold of `v`, and something was counted.
  abbrev Bounds : a.Number → Tally a → Type 0
  Bounds v t = (a.less v t.min ≡ false) × (a.less t.max v ≡ false) × (1 ≤ t.finite)
