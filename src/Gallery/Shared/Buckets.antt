-- ===== src/Gallery/Shared/Buckets.antt =====
-- What timeline of src/store/identity.cpp counts.
use hvax.Prelude.{ℕ, ◌+◌, ◌≡◌, true, List, [], ◌∷◌, if◌then◌else◌, Table, ℤ}
use hvax.Floats.{Floats}
use hvax.Types.{FaceSlot}
use hvax.Gallery.Shared.{TimelineBucket, int64_of, bucket_start, int_same, int_before}

-- How many faces the buckets have that start at `k`.
abbrev pub faces_at : ℤ → List TimelineBucket → ℕ
faces_at k [] = 0
faces_at k (b ∷ buckets) = (if int_same b.start k then b.faces else 0) + faces_at k buckets

-- How many of the rows belong to the bucket that starts at `k`.
abbrev pub rows_at : {F : Type 0} → Table (FaceSlot F) → ℕ → ℤ → List ℕ → ℕ
rows_at faces bucket_ms k [] = 0
rows_at faces bucket_ms k (r ∷ rows) =
    (if int_same (bucket_start (int64_of (faces.at r).created_at) bucket_ms) k then 1 else 0)
    + rows_at faces bucket_ms k rows

-- The buckets are in rising order, above `b`.
abbrev After : ℤ → List TimelineBucket → Type 0
After k [] = Unit
After k (b ∷ buckets) = (int_before k b.start ≡ true) × After b.start buckets

abbrev pub InOrder : List TimelineBucket → Type 0
InOrder [] = Unit
InOrder (b ∷ buckets) = After b.start buckets
