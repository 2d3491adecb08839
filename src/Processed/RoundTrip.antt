-- ===== src/Processed/RoundTrip.antt =====
-- What src/processed.cpp prints, it parses.
use hvax.Prelude.{◌≡◌, refl, [], ◌∷◌}
use hvax.Floats.{Floats}
use hvax.Types.{BBox}
use hvax.Processed.Wire.{JsonLib}
use hvax.Processed.Parse.{box_of}

module _ (fl : Floats) (lib : JsonLib fl.Float) where
  open fl use {Float, finite}

  box_of-BBox : (b : BBox Float) → box_of fl lib (b.x1 ∷ b.y1 ∷ b.x2 ∷ b.y2 ∷ []) ≡ b
  unfolding box_of
  box_of-BBox b = refl
