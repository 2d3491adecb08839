-- ===== src/Gallery/Shared.antt =====
-- The queries of src/store/identity.cpp on who appears with whom, and when. A view of a face has what
-- its slot has, and the slot stands for it.
pub mod Pairs
pub mod Common
mod Swap
mod Tally
mod Agree
mod Buckets
mod Tests
use hvax.Prelude.{
  ℕ, zero, suc, ◌+◌, ◌-◌, ◌*◌, ◌/◌, ◌%◌, ◌^◌, Bool, true, false, not, ◌&&◌, ◌||◌, List, [], ◌∷◌,
  map, ltb, ◌==◌, if◌then◌else◌, Table, length, take, ℤ, pos, negsuc, ◌*ℤ◌, sort_by, unique_by,
  page,
}
use hvax.Floats.{Floats}
use hvax.Hnsw.{Usearch}
use hvax.Types.{FaceSlot, u32}
use hvax.Gallery.State.{Gallery}
use hvax.Gallery.Identities.{identity_live}

pub record CooccurrenceEntry : Type 0 where
  pub identity_id : ℕ
  pub shared_images : ℕ

pub record ShownFace (F : Type 0) : Type 0 where
  pub face : FaceSlot F
  pub hidden : Bool

pub record SharedImage (F : Type 0) : Type 0 where
  pub image_id : ℕ
  pub faces : List (ShownFace F)
  pub other_faces : List (ShownFace F)

pub record TimelineBucket : Type 0 where
  pub start : ℤ
  pub faces : ℕ

-- The order and the equality of std::pair.
unfoldable pub pair_before : ℕ × ℕ → ℕ × ℕ → Bool
pair_before a b = ltb a.0 b.0 || a.0 == b.0 && ltb a.1 b.1

unfoldable pub pair_same : ℕ × ℕ → ℕ × ℕ → Bool
pair_same a b = a.0 == b.0 && a.1 == b.1

-- The runs of pairs with the same identity, `n` pairs of the run of `o` being counted.
unfoldable pub runs_after : ℕ → ℕ → List (ℕ × ℕ) → List CooccurrenceEntry
runs_after o n [] = record { identity_id = o; shared_images = u32 n } ∷ []
runs_after o n (p ∷ ps) =
    let same = runs_after o (n + 1) ps in
    let next = runs_after p.0 1 ps in
    if p.0 == o then same else record { identity_id = o; shared_images = u32 n } ∷ next

unfoldable pub runs : List (ℕ × ℕ) → List CooccurrenceEntry
unfolding runs_after
runs [] = []
runs (p ∷ ps) = runs_after p.0 1 ps

unfoldable pub entry_before : CooccurrenceEntry → CooccurrenceEntry → Bool
entry_before a b =
    if a.shared_images == b.shared_images
    then ltb a.identity_id b.identity_id
    else ltb b.shared_images a.shared_images

-- static_cast<int64_t>
unfoldable pub int64_of : ℕ → ℤ
int64_of n = if ltb n (2 ^ 63) then pos n else negsuc (2 ^ 64 - n - 1)

-- (t / bucket_ms) * bucket_ms, where a quotient is cut towards zero.
unfoldable pub bucket_start : ℤ → ℕ → ℤ
bucket_start (pos t) bucket_ms = pos (t / bucket_ms * bucket_ms)
bucket_start (negsuc t) bucket_ms = negsuc 0 *ℤ pos (suc t / bucket_ms * bucket_ms)

unfoldable pub int_same : ℤ → ℤ → Bool
int_same (pos a) (pos b) = a == b
int_same (negsuc a) (negsuc b) = a == b
int_same _ _ = false

unfoldable pub int_before : ℤ → ℤ → Bool
int_before (pos a) (pos b) = ltb a b
int_before (negsuc a) (negsuc b) = ltb b a
int_before (pos _) (negsuc _) = false
int_before (negsuc _) (pos _) = true

-- ++buckets[start], in a std::map.
unfoldable pub bump_bucket : ℤ → List TimelineBucket → List TimelineBucket
unfolding int_same int_before
bump_bucket start [] = record { start = start; faces = 1 } ∷ []
bump_bucket start (b ∷ buckets) =
    let rest = bump_bucket start buckets in
    if int_same b.start start
    then record b { faces = u32 (b.faces + 1) } ∷ buckets
    else (if int_before start b.start
        then record { start = start; faces = 1 } ∷ b ∷ buckets
        else b ∷ rest)

module _ (fl : Floats) (us : Usearch fl.Float) where
  open fl use {Float}
  open us use {Index}

  -- The identity is live, and not hidden unless that is asked for.
  unfoldable pub open_identity : Gallery Float Index → ℕ → Bool → Bool
  open_identity g id include_hidden =
      identity_live fl us g (pos id) && (include_hidden || not (g.hidden.at id))

  -- The image of face `r` is one that has a list of faces.
  unfoldable pub has_image : Gallery Float Index → ℕ → Bool
  has_image g r = let img = (g.faces.at r).image_id in not (img == 0 || ltb g.image_faces.size img)

  unfoldable pub add_other : Gallery Float Index → ℕ → Bool → ℕ → ℕ → List (ℕ × ℕ) → List (ℕ × ℕ)
  add_other g id include_hidden img zero pairs = pairs
  add_other g id include_hidden img (suc other) pairs =
      if other == id || not include_hidden && g.hidden.at other then pairs else (other, img) ∷ pairs

  unfoldable pub others_on :
      Gallery Float Index → ℕ → Bool → ℕ → List ℕ → List (ℕ × ℕ) → List (ℕ × ℕ)
  unfolding add_other
  others_on g id include_hidden img [] pairs = pairs
  others_on g id include_hidden img (o ∷ rows) pairs =
      add_other g id include_hidden img (g.faces.at o).identity_ref
        (others_on g id include_hidden img rows pairs)

  -- The pairs (other identity, image) of the member rows.
  unfoldable pub pairs_with : Gallery Float Index → ℕ → Bool → List ℕ → List (ℕ × ℕ)
  unfolding has_image others_on
  pairs_with g id include_hidden [] = []
  pairs_with g id include_hidden (r ∷ rows) =
      let rest = pairs_with g id include_hidden rows in
      let img = (g.faces.at r).image_id in
      if has_image g r
      then others_on g id include_hidden img (g.image_faces.at (img - 1)) rest
      else rest

  unfoldable pub entries_of : Gallery Float Index → ℕ → Bool → List CooccurrenceEntry
  unfolding pairs_with runs pair_before pair_same
  entries_of g id include_hidden =
      runs (
        unique_by pair_same
          (sort_by pair_before (pairs_with g id include_hidden (g.members.at id))))

  unfoldable pub cooccurring : Gallery Float Index → ℤ → ℕ → Bool → List CooccurrenceEntry
  unfolding open_identity entries_of entry_before
  cooccurring g (negsuc _) limit include_hidden = []
  cooccurring g (pos id) limit include_hidden =
      if open_identity g id include_hidden
      then take limit (sort_by entry_before (entries_of g id include_hidden))
      else []

  -- Some face of the rows refers to `id`.
  unfoldable pub someone : Gallery Float Index → ℕ → List ℕ → Bool
  someone g id [] = false
  someone g id (o ∷ rows) = (g.faces.at o).identity_ref == suc id || someone g id rows

  unfoldable pub images_with : Gallery Float Index → ℕ → List ℕ → List ℕ
  unfolding has_image someone
  images_with g other [] = []
  images_with g other (r ∷ rows) =
      let rest = images_with g other rows in
      let img = (g.faces.at r).image_id in
      if has_image g r && someone g other (g.image_faces.at (img - 1)) then img ∷ rest else rest

  -- The images of both, the newest first; their number is `*total`.
  unfoldable pub common_images : Gallery Float Index → ℕ → ℕ → List ℕ
  unfolding images_with
  common_images g id other =
      unique_by ◌==◌ (sort_by (λ a b. ltb b a) (images_with g other (g.members.at id)))

  unfoldable pub faces_among : Gallery Float Index → ℕ → List ℕ → List (ShownFace Float)
  faces_among g id [] = []
  faces_among g id (r ∷ rows) =
      let rest = faces_among g id rows in
      if (g.faces.at r).identity_ref == suc id
      then record { face = g.faces.at r; hidden = g.hidden.at id } ∷ rest
      else rest

  unfoldable pub shared_image : Gallery Float Index → ℕ → ℕ → ℕ → SharedImage Float
  unfolding faces_among
  shared_image g id other img = record {
    image_id = img;
    faces = faces_among g id (g.image_faces.at (img - 1));
    other_faces = faces_among g other (g.image_faces.at (img - 1));
  }

  -- The page and the total.
  unfoldable pub shared_of :
      Gallery Float Index → ℕ → ℕ → ℕ → ℕ → Bool → List (SharedImage Float) × ℕ
  unfolding open_identity common_images shared_image
  shared_of g id other offset limit include_hidden =
      if not (id == other)
        && (open_identity g id include_hidden && open_identity g other include_hidden)
      then (
        map (shared_image g id other) (page offset limit (common_images g id other)),
        length (common_images g id other),
      )
      else ([], 0)

  unfoldable pub shared_images :
      Gallery Float Index → ℤ → ℤ → ℕ → ℕ → Bool → List (SharedImage Float) × ℕ
  unfolding shared_of
  shared_images g (pos id) (pos other) offset limit include_hidden =
      shared_of g id other offset limit include_hidden
  shared_images g _ _ offset limit include_hidden = ([], 0)

  unfoldable pub buckets_of :
      Table (FaceSlot Float) → ℕ → List ℕ → List TimelineBucket → List TimelineBucket
  unfolding int64_of bucket_start bump_bucket
  buckets_of faces bucket_ms [] buckets = buckets
  buckets_of faces bucket_ms (r ∷ rows) buckets =
      buckets_of faces bucket_ms rows
        (bump_bucket (bucket_start (int64_of (faces.at r).created_at) bucket_ms) buckets)

  unfoldable pub timeline : Gallery Float Index → ℤ → ℤ → Bool → List TimelineBucket
  unfolding open_identity buckets_of
  timeline g (pos id) (pos (suc b)) include_hidden =
      if open_identity g id include_hidden
      then buckets_of g.faces (suc b) (g.members.at id) []
      else []
  timeline g _ _ include_hidden = []
