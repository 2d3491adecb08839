-- ===== src/Examples.antt =====
-- Concrete numbers, a concrete index and a small gallery, for the tests.
pub mod Sample
mod Tests
use hvax.Prelude.{
  ℕ, zero, suc, ◌+◌, ◌-◌, ◌*◌, ◌/◌, ◌≡◌, refl, Bool, true, false, ◌&&◌, Option, none, some, List,
  [], ◌∷◌, ltb, leb, ◌==◌, if◌then◌else◌, ℤ, pos, negsuc, arith,
}
use hvax.Floats.{Floats}
use hvax.Hnsw.{Usearch}
use hvax.Types.{BBox, DetectedFace, FaceSlot, ImageSlot, IdentitySlot}
use hvax.Gallery.State.{Gallery, Config, Sha, sha_eq}
use hvax.Gallery.Images.{Picture}

-- Hundredths, from 0 on.
abbrev pub hundredths : Floats
hundredths = record {
  Float = ℕ;
  Double = ℕ;
  lit = λ n d. n * 100 / d;
  neg = λ x. 0;
  add = λ x y. x + y;
  sub = λ x y. x - y;
  mul = λ x y. x * y / 100;
  div = λ x y. x * 100 / y;
  sqrt = λ x. x;
  log2 = λ x. x;
  lt = ltb;
  le = leb;
  round = λ x. pos (x / 100);
  of_int = λ z. elim z [ pos n ↦ n * 100 | negsuc n ↦ 0 ];
  widen = λ x. x;
  narrow = λ x. x;
  dlit = λ n. n * 100;
  dadd = λ x y. x + y;
  dmul = λ x y. x * y / 100;
  ddiv = λ x y. x * 100 / y;
  dsqrt = λ x. x;
  dlt = ltb;
  dratio = λ n d. n * 100 / d;
  dexp = λ x. x + 100;
  infinity = 1000000;
  finite = λ x. ltb x 1000000;
  dfinite = λ x. true;
}

-- The set of the keys, which is all that the laws speak of; it finds nothing.
abbrev pub key_set : Usearch ℕ
key_set = record {
  Index = ℕ → Bool;
  made = λ k. false;
  add = λ i k v j. if j == k then true else i j;
  remove = λ i k j. if j == k then false else i j;
  contains = λ i k. i k;
  size = λ i. 0;
  search = λ i q k. [];
  contains_made = λ k. refl;
  contains_add = λ i k v j. refl;
  contains_remove = λ i k j. refl;
}

abbrev pub settings : Config ℕ
settings = record {
  index_min_face_px = 0;
  index_min_det = 50;
  identity_join = 40;
  phash_threshold = 4;
  dhash_threshold = 4;
  exact_until = 1000;
  i8_scan = false;
  max_range = 100;
  max_upload = 1000;
  default_k = 10;
  dedup_perceptual = true;
}

abbrev pub frame : BBox ℕ
frame = record { x1 = 0; y1 = 0; x2 = 100; y2 = 100 }

abbrev pub a_face : DetectedFace ℕ
a_face = record { box = frame; det_score = 90; kps = []; embedding = 100 ∷ [] }

abbrev pub a_picture : Picture
a_picture = record {
  bytes = 1 ∷ 2 ∷ [];
  cols = 20;
  rows = 10;
  sha = 8 ∷ [];
  mime = 1;
  phash = 255;
  dhash = 255;
}

abbrev pub face_row : ℕ → FaceSlot ℕ
face_row r = record {
  face_id = r;
  image_id = 1;
  box = frame;
  det_score = 90;
  kps = [];
  flags = 0;
  created_at = 1;
  identity_ref = if r == 2 then 2 else 1;
}

abbrev pub image_row : ImageSlot
image_row = record {
  image_id = 1;
  sha256 = 7 ∷ [];
  width = 10;
  height = 10;
  nbytes = 3;
  mime = 1;
  flags = 0;
  phash = 0;
  dhash = 0;
  created_at = 1;
  updated_at = 1;
  nfaces = 3;
}

abbrev pub identity_row : ℕ → IdentitySlot
identity_row id = record {
  identity_id = id;
  size = if id == 0 then 2 else 1;
  n_images = 1;
  rep_face_id = 0;
  flags = 0;
  created_at = 1;
  updated_at = 1;
  first_seen = 1;
  last_seen = 1;
  name = [];
}

-- One image with three faces: two of identity 0 and one of identity 1.
abbrev pub sample : Gallery ℕ (ℕ → Bool)
sample = record {
  images = record { size = 1; at = λ i. image_row };
  faces = record { size = 3; at = face_row };
  embs = record { size = 3; at = λ r. 100 ∷ [] };
  embs_i8 = record { size = 3; at = λ r. pos 127 ∷ [] };
  identities = record { size = 2; at = identity_row };
  centroids = record { size = 2; at = λ id. 100 ∷ [] };
  hnsw = λ r. ltb r 3;
  sha_to_idx = λ k. if sha_eq k (7 ∷ []) then some 0 else none;
  flags_cache = record { size = 3; at = λ r. 0 };
  centroid_norm = record { size = 2; at = λ id. 100 ∷ [] };
  members = record { size = 2; at = λ id. if id == 0 then 0 ∷ 1 ∷ [] else 2 ∷ [] };
  image_faces = record { size = 1; at = λ i. 0 ∷ 1 ∷ 2 ∷ [] };
  hidden = record { size = 2; at = λ id. false };
  hidden_count = 0;
  masters = λ k. if sha_eq k (7 ∷ []) then some (1 ∷ 2 ∷ 3 ∷ []) else none;
}
