-- ===== src/Processed/Validate.antt =====
-- validate_processed_faces of src/processed.cpp. The vector is changed in place up to the face that
-- fails, so that the faces are a part of the result on every path.
use hvax.Prelude.{suc, not, ◌||◌, Option, none, some, List, [], ◌∷◌, if◌then◌else◌, ℤ, pos}
use hvax.Floats.{Floats}
use hvax.Vectors.{norm2, l2_normalize}
use hvax.Types.{BBox, DetectedFace}

pub data ValidateError : Type 0 where
  bad_dimensions no_intersection no_area bad_norm : ValidateError

module _ (fl : Floats) where
  open fl use {Float, lit, lt, le, of_int, dlit, dratio, dlt, dfinite}

  -- std::clamp(x, 0.f, max)
  unfoldable pub clamped : Float → Float → Float
  clamped max x = if lt x (lit 0 1) then lit 0 1 else (if lt max x then max else x)

  unfoldable pub clamped_box : Float → Float → BBox Float → BBox Float
  unfolding clamped
  clamped_box max_x max_y b = record {
    x1 = clamped max_x b.x1;
    y1 = clamped max_y b.y1;
    x2 = clamped max_x b.x2;
    y2 = clamped max_y b.y2;
  }

  -- The points are coordinates in a row.
  unfoldable pub clamped_points : Float → Float → List Float → List Float
  unfolding clamped
  clamped_points max_x max_y (x ∷ y ∷ rest) =
      clamped max_x x ∷ clamped max_y y ∷ clamped_points max_x max_y rest
  clamped_points max_x max_y rest = rest

  unfoldable pub normalized_face : DetectedFace Float → DetectedFace Float × Option ValidateError
  normalized_face f =
      let n = norm2 fl (dlit 0) f.embedding in
      if not (dfinite n) || dlt n (dratio 1 1000000000000)
      then (f, some bad_norm)
      else (record f { embedding = l2_normalize fl f.embedding }, none)

  unfoldable pub boxed_face :
      Float → Float → DetectedFace Float → DetectedFace Float × Option ValidateError
  unfolding clamped_points normalized_face
  boxed_face max_x max_y f =
      if le f.box.x2 f.box.x1 || le f.box.y2 f.box.y1
      then (f, some no_area)
      else normalized_face (record f { kps = clamped_points max_x max_y f.kps })

  unfoldable pub validate_face :
      Float → Float → DetectedFace Float → DetectedFace Float × Option ValidateError
  unfolding clamped_box boxed_face
  validate_face max_x max_y f =
      if le f.box.x2 (lit 0 1)
        || (le f.box.y2 (lit 0 1) || (le max_x f.box.x1 || le max_y f.box.y1))
      then (f, some no_intersection)
      else boxed_face max_x max_y (record f { box = clamped_box max_x max_y f.box })

  -- A face that fails ends the loop.
  unfoldable pub after_face :
      DetectedFace Float × Option ValidateError
      → List (DetectedFace Float)
      → List (DetectedFace Float) × Option ValidateError
      → List (DetectedFace Float) × Option ValidateError
  after_face (f, none) rest (done, error) = (f ∷ done, error)
  after_face (f, some e) rest next = (f ∷ rest, some e)

  unfoldable pub validate_faces :
      Float → Float → List (DetectedFace Float) → List (DetectedFace Float) × Option ValidateError
  unfolding validate_face after_face
  validate_faces max_x max_y [] = ([], none)
  validate_faces max_x max_y (f ∷ fs) =
      after_face (validate_face max_x max_y f) fs (validate_faces max_x max_y fs)

  -- The faces, and no error just where the source returns true.
  unfoldable pub validate_processed_faces :
      List (DetectedFace Float) → ℤ → ℤ → List (DetectedFace Float) × Option ValidateError
  unfolding validate_faces
  validate_processed_faces faces (pos (suc w)) (pos (suc h)) =
      validate_faces (of_int (pos (suc w))) (of_int (pos (suc h))) faces
  validate_processed_faces faces width height = (faces, some bad_dimensions)
