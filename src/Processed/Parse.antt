-- ===== src/Processed/Parse.antt =====
-- parse_processed_payload and processed_payload_json of src/processed.cpp.
use hvax.Prelude.{
  ℕ, Bool, false, not, ◌&&◌, Option, none, some, List, [], ◌∷◌, ◌++◌, map, codes, leb, ◌==◌,
  if◌then◌else◌, ℤ, pos, negsuc,
}
use hvax.Floats.{Floats}
use hvax.Types.{BBox, DetectedFace}
use hvax.Gallery.State.{sha_eq}
use hvax.Processed.Wire.{
  Json, number, text, array, object, Items, nil, cons, Fields, end, field, JsonLib, ParseError,
  bad_version, bad_dim, bad_model, faces_not_array, too_many_faces, face_not_object, bad_bbox,
  score_not_number, score_out_of_range, not_five_landmarks, bad_landmark, bad_embedding, threw,
  Checked, good, bad, ◌>>=◌, ◌>>◌, guard, demand, max_processed_faces, buffalo, member, items_size,
  as_object, as_array, as_number, items_of,
}

-- std::optional as the answer of an integer that must be `n`.
unfoldable pub is_int : ℤ → ℕ → Bool
is_int (pos m) n = m == n
is_int (negsuc m) n = false

module _ (fl : Floats) (lib : JsonLib fl.Float) where
  open fl use {Float, lit, lt, finite}
  open lib use {Number, to_float, of_float, of_int, get_int, get_text}

  unfoldable pub if_finite : Option Number → Option Float
  if_finite none = none
  if_finite (some x) = if finite (to_float x) then some (to_float x) else none

  unfoldable pub both : Option Float → Option (List Float) → Option (List Float)
  both (some x) (some xs) = some (x ∷ xs)
  both _ _ = none

  -- The elements of an array, if they are finite numbers all.
  unfoldable pub float_items : Items Number → Option (List Float)
  unfolding if_finite both
  float_items nil = some []
  float_items (cons j js) = both (if_finite (as_number (some j))) (float_items js)

  unfoldable pub sized_floats : Option (Items Number) → ℕ → Option (List Float)
  unfolding float_items
  sized_floats none size = none
  sized_floats (some js) size = if items_size js == size then float_items js else none

  -- `!value.contains(key) || !read_float_array(value[key], size, out)` is `none`.
  unfoldable pub read_float_array : Option (Json Number) → ℕ → Option (List Float)
  unfolding sized_floats
  read_float_array j size = sized_floats (as_array j) size

  unfoldable pub box_of : List Float → BBox Float
  box_of (a ∷ b ∷ c ∷ d ∷ _) = record { x1 = a; y1 = b; x2 = c; y2 = d }
  box_of _ = record { x1 = lit 0 1; y1 = lit 0 1; x2 = lit 0 1; y2 = lit 0 1 }

  -- The points, as their coordinates in a row.
  unfoldable pub point_items : Items Number → Checked (List Float)
  unfolding read_float_array
  point_items nil = good []
  point_items (cons j js) = do
    xy ← demand (read_float_array (some j) 2) bad_landmark
    rest ← point_items js
    good (xy ++ rest)

  unfoldable pub score_in_range : Float → Bool
  score_in_range s = finite s && (not (lt s (lit 0 1)) && not (lt (lit 1 1) s))

  unfoldable pub parse_fields : Fields Number → Checked (DetectedFace Float)
  unfolding read_float_array box_of point_items score_in_range
  parse_fields value = do
    bbox ← demand (read_float_array (member (codes "bbox") value) 4) bad_bbox
    score ← demand (as_number (member (codes "det_score") value)) score_not_number
    guard (score_in_range (to_float score)) score_out_of_range
    points ← demand (as_array (member (codes "landmarks") value)) not_five_landmarks
    guard (items_size points == 5) not_five_landmarks
    kps ← point_items points
    embedding ← demand (read_float_array (member (codes "embedding") value) 512) bad_embedding
    good
        (record { box = box_of bbox; det_score = to_float score; kps = kps; embedding = embedding })

  -- One element of the faces.
  unfoldable pub parse_face : Json Number → Checked (DetectedFace Float)
  unfolding parse_fields
  parse_face value = do fields ← demand (as_object value) face_not_object; parse_fields fields

  -- The faces put behind those that the vector holds, and the error that ended the loop.
  unfoldable pub parse_faces :
      List (DetectedFace Float) → Items Number → List (DetectedFace Float) × Option ParseError
  unfolding parse_face
  parse_faces faces nil = (faces, none)
  parse_faces faces (cons value rest) = elim (parse_face value) [
    | good f ↦ parse_faces (faces ++ (f ∷ [])) rest
    | bad e ↦ (faces, some e)
  ]

  -- root.value(key, 0) and root.value(key, "").
  unfoldable pub value_int : Fields Number → List ℕ → Checked ℤ
  value_int root key = elim (member key root) [
    | none ↦ good (pos 0)
    | some j ↦ demand (get_int j) threw
  ]

  unfoldable pub value_text : Fields Number → List ℕ → Checked (List ℕ)
  value_text root key = elim (member key root) [
    | none ↦ good []
    | some j ↦ demand (get_text j) threw
  ]

  -- What is checked before the faces, and the faces.
  unfoldable pub parse_root : Json Number → Checked (Items Number)
  unfolding value_int value_text
  parse_root j = do
    root ← demand (as_object j) bad_version
    version ← value_int root (codes "version")
    guard (is_int version 1) bad_version
    dim ← value_int root (codes "embedding_dim")
    guard (is_int dim 512) bad_dim
    model ← value_text root (codes "model")
    guard (sha_eq model buffalo) bad_model
    faces ← demand (as_array (member (codes "faces") root)) faces_not_array
    guard (leb (items_size faces) max_processed_faces) too_many_faces
    good faces

  unfoldable pub checked_faces :
      Checked (Items Number) → List (DetectedFace Float) × Option ParseError
  unfolding parse_faces
  checked_faces (bad e) = ([], some e)
  checked_faces (good faces) = parse_faces [] faces

  unfoldable pub parsed : Option (Json Number) → List (DetectedFace Float) × Option ParseError
  unfolding parse_root checked_faces
  parsed none = ([], some threw)
  parsed (some j) = checked_faces (parse_root j)

  -- The faces, and no error just where the source returns true.
  unfoldable pub parse_processed_payload : List ℕ → List (DetectedFace Float) × Option ParseError
  unfolding parsed
  parse_processed_payload payload = parsed (lib.parse payload)

  unfoldable pub floats_json : List Float → Json Number
  floats_json xs = array (items_of (map (λ x. number (of_float x)) xs))

  -- The coordinates in a row, as points.
  unfoldable pub landmarks_json : List Float → Items Number
  unfolding floats_json
  landmarks_json (x ∷ y ∷ rest) = cons (floats_json (x ∷ y ∷ [])) (landmarks_json rest)
  landmarks_json _ = nil

  unfoldable pub face_json : DetectedFace Float → Json Number
  unfolding floats_json landmarks_json
  face_json f = object (
      field (codes "bbox") (floats_json (f.box.x1 ∷ f.box.y1 ∷ f.box.x2 ∷ f.box.y2 ∷ [])) (
        field (codes "det_score") (number (of_float f.det_score)) (
          field (codes "landmarks") (array (landmarks_json f.kps))
            (field (codes "embedding") (floats_json f.embedding) end))))

  unfoldable pub processed_payload_json : List (DetectedFace Float) → Json Number
  unfolding face_json
  processed_payload_json faces = object (
      field (codes "version") (number (of_int 1)) (
        field (codes "model") (text buffalo) (
          field (codes "embedding_dim") (number (of_int 512))
            (field (codes "faces") (array (items_of (map face_json faces))) end))))
