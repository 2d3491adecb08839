-- ===== src/Floats.antt =====
-- The arithmetic of `float` and `double`, which the machine provides: a parameter of every module
-- that computes with scores, boxes and embeddings. Nothing is assumed of the operations here; a
-- theorem that needs a law of the order takes it as a hypothesis.
use hvax.Prelude.{ℕ, Bool, ℤ}

pub record Floats : Type 1 where
  pub Float : Type 0
  pub Double : Type 0
  -- The literal n / d.
  pub lit : ℕ → ℕ → Float
  pub neg : Float → Float
  pub add : Float → Float → Float
  pub sub : Float → Float → Float
  pub mul : Float → Float → Float
  pub div : Float → Float → Float
  pub sqrt : Float → Float
  pub log2 : Float → Float
  -- x < y and x <= y, false where one is not a number.
  pub lt : Float → Float → Bool
  pub le : Float → Float → Bool
  -- lrintf
  pub round : Float → ℤ
  pub of_int : ℤ → Float
  pub widen : Float → Double
  pub narrow : Double → Float
  pub dlit : ℕ → Double
  pub dadd : Double → Double → Double
  pub dmul : Double → Double → Double
  pub ddiv : Double → Double → Double
  pub dsqrt : Double → Double
  pub dlt : Double → Double → Bool
  -- n / d as a double.
  pub dratio : ℕ → ℕ → Double
  pub dexp : Double → Double
  pub infinity : Float
  -- std::isfinite
  pub finite : Float → Bool
  pub dfinite : Double → Bool
