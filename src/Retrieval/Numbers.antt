-- ===== src/Retrieval/Numbers.antt =====
-- The floating-point numbers that rankings are computed with, as the operations that the source calls.
use geolytics.Prelude.{ℕ, Bool}
use geolytics.Chunking.Base.{ChunkId}

pub record Floats (W : Type 0) : Type 0 where
  pub zero : W
  pub one : W
  pub of_nat : ℕ → W
  pub negative : W → W
  pub plus : W → W → W
  pub minus : W → W → W
  pub times : W → W → W
  pub over : W → W → W
  -- `a == b` and `a < b`
  pub equal : W → W → Bool
  pub less : W → W → Bool
  -- The order of the texts of chunk ids.
  pub id_less : ChunkId → ChunkId → Bool
