-- ===== src/Processed/Shape.antt =====
-- What a face must be to travel in the payload of src/processed.cpp.
use hvax.Prelude.{◌≡◌, true, All, length}
use hvax.Floats.{Floats}
use hvax.Types.{DetectedFace}
use hvax.Processed.Wire.{JsonLib}
use hvax.Processed.Parse.{score_in_range}

module _ (fl : Floats) (lib : JsonLib fl.Float) where
  open fl use {Float, finite}

  abbrev pub IsFinite : Float → Type 0
  IsFinite x = finite x ≡ true

  -- A face as the wire carries it: five points, 512 components, all numbers finite, and a score
  -- between 0 and 1.
  pub record IsWire (f : DetectedFace Float) : Type 0 where
    pub box : IsFinite f.box.x1 × IsFinite f.box.y1 × IsFinite f.box.x2 × IsFinite f.box.y2
    pub score : score_in_range fl lib f.det_score ≡ true
    pub points : length f.kps ≡ 10
    pub finite_points : All IsFinite f.kps
    pub components : length f.embedding ≡ 512
    pub finite_components : All IsFinite f.embedding
