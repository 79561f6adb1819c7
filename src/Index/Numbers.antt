-- ===== src/Index/Numbers.antt =====
-- What the index takes from NumPy: the floating-point numbers `W`, the rows `V` of an array, and the
-- functions that it calls. A test on a number is NumPy's `>`.
use geolytics.Prelude.{ℕ, Bool, List}

pub record Numpy (V W : Type 0) : Type 0 where
  pub zero : W
  pub positive : W → Bool
  pub times : W → W → W
  pub over : W → W → W
  pub negative : W → W
  -- `row @ query`, `row - query` and `np.linalg.norm(row)`
  pub dot : V → V → W
  pub minus : V → V → V
  pub norm : V → W
  -- `np.argpartition(a, kth)` and `np.argsort(a, kind="stable")`
  pub argpartition : List W → ℕ → List ℕ
  pub argsort : List W → List ℕ
