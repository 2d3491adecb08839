-- ===== src/Processed/Clamped.antt =====
-- What validate_processed_faces of src/processed.cpp lets through.
use hvax.Prelude.{ℕ, ◌≡◌, false, Option, none, some, List, ◌∷◌, ℤ, All, length}
use hvax.Floats.{Floats}
use hvax.Vectors.{norm2, l2_normalize}
use hvax.Types.{DetectedFace}
use hvax.Processed.Validate.{ValidateError}

module _ (fl : Floats) where
  open fl use {Float, lit, lt, le, of_int, dlit, dratio, dlt, dfinite}

  -- x is neither below 0 nor above the bound.
  abbrev Inside : Float → Float → Type 0
  Inside max x = (lt x (lit 0 1) ≡ false) × (lt max x ≡ false)

  abbrev PointsInside : Float → Float → List Float → Type 0
  PointsInside max_x max_y (x ∷ y ∷ rest) =
      Inside max_x x × Inside max_y y × PointsInside max_x max_y rest
  PointsInside max_x max_y _ = Unit

  -- A face in an image of the size: its box and points are inside, the box has an area, and its
  -- embedding is one that l2_normalize made of a vector whose norm is not near 0.
  pub record InImage (max_x max_y : Float) (f : DetectedFace Float) : Type 0 where
    pub x1 : Inside max_x f.box.x1
    pub y1 : Inside max_y f.box.y1
    pub x2 : Inside max_x f.box.x2
    pub y2 : Inside max_y f.box.y2
    pub width : le f.box.x2 f.box.x1 ≡ false
    pub height : le f.box.y2 f.box.y1 ≡ false
    pub points : PointsInside max_x max_y f.kps
    pub raw : List Float
    pub normalized : f.embedding ≡ l2_normalize fl raw
    pub not_zero : dlt (norm2 fl (dlit 0) raw) (dratio 1 1000000000000) ≡ false

  module _ (irreflexive : (x : Float) → lt x x ≡ false) (max_x max_y : Float)
      (at_x : lt max_x (lit 0 1) ≡ false) (at_y : lt max_y (lit 0 1) ≡ false) where
    -- Without an error the face is in the image.
    abbrev FacePassed : DetectedFace Float × Option ValidateError → Type 0
    FacePassed (f, none) = InImage max_x max_y f
    FacePassed (f, some e) = Unit

    -- What is known of a face when it reaches the last test.
    abbrev Boxed : DetectedFace Float → Type 0
    Boxed f =
        Inside max_x f.box.x1
        × Inside max_y f.box.y1
        × Inside max_x f.box.x2
        × Inside max_y f.box.y2

    -- Without an error all faces are in the image; there are as many as before on every path.
    abbrev Passed : ℕ → List (DetectedFace Float) × Option ValidateError → Type 0
    Passed n (faces, none) = All (InImage max_x max_y) faces × (length faces ≡ n)
    Passed n (faces, some e) = length faces ≡ n

  -- What is true of the result for an image of the given size.
  abbrev pub Validated :
      List (DetectedFace Float) → ℤ → ℤ → List (DetectedFace Float) × Option ValidateError → Type 0
  Validated faces width height (out, none) =
      All (InImage (of_int width) (of_int height)) out × (length out ≡ length faces)
  Validated faces width height (out, some e) = length out ≡ length faces
