-- ===== src/Cluster/Order.antt =====
-- The order of the edges in symmetrize_knn of src/identity/cluster.cpp: sorting and deduplication.
use hvax.Prelude.{
  Bool, true, false, ◌&&◌, ◌||◌, ◌≡◌, refl, List, [], ◌∷◌, ltb, leb, ◌==◌, if◌then◌else◌, arith,
  All,
}
use hvax.Floats.{Floats}
use hvax.Cluster.{Edge, edge_before, insert_edge, sort_edges, dedupe_after, dedupe}

module _ (fl : Floats) where
  open fl use {Float, lt}

  -- The ends are in order, by one number or the other.
  abbrev at_most : Edge Float → Edge Float → Bool
  at_most x y = ltb x.u y.u || (x.u == y.u && leb x.v y.v)

  abbrev below : Edge Float → Edge Float → Bool
  below x y = ltb x.u y.u || (x.u == y.u && ltb x.v y.v)

  abbrev Climbing : Edge Float → List (Edge Float) → Type 0
  Climbing e [] = Unit
  Climbing e (x ∷ xs) = (at_most e x ≡ true) × Climbing x xs

  -- No pair of ends stands twice, and they rise.
  abbrev RisingFrom : Edge Float → List (Edge Float) → Type 0
  RisingFrom e [] = Unit
  RisingFrom e (x ∷ xs) = (below e x ≡ true) × RisingFrom x xs

  abbrev pub Rising : List (Edge Float) → Type 0
  Rising [] = Unit
  Rising (e ∷ es) = RisingFrom e es

  abbrev pub Sorted : List (Edge Float) → Type 0
  Sorted [] = Unit
  Sorted (e ∷ es) = Climbing e es

  at_most_after : (x e : Edge Float) → edge_before fl x e ≡ true → at_most x e ≡ true
  unfolding edge_before
  at_most_after x e h = ground (arith, h)

  at_most_before : (x e : Edge Float) → edge_before fl x e ≡ false → at_most e x ≡ true
  unfolding edge_before
  at_most_before x e h = ground (arith, h)

  at_most_trans :
      (x y z : Edge Float) → at_most x y ≡ true → at_most y z ≡ true → at_most x z ≡ true
  at_most_trans x y z h k = ground (arith, h, k)

  insert_edge-Climbing :
      (b e : Edge Float) (es : List (Edge Float))
      → at_most b e ≡ true
      → Climbing b es
      → Climbing b (insert_edge fl e es)
  unfolding insert_edge
  insert_edge-Climbing b e [] h k = (h, tt)
  insert_edge-Climbing b e (x ∷ xs) h k =
      go (edge_before fl x e) refl (λ m. insert_edge-Climbing x e xs m k.1)
    where
      go :
          (t : Bool)
          → edge_before fl x e ≡ t
          → (at_most x e ≡ true → Climbing x (insert_edge fl e xs))
          → Climbing b (if t then x ∷ insert_edge fl e xs else e ∷ x ∷ xs)
      go true m rest = (k.0, rest (at_most_after x e m))
      go false m rest = (h, (at_most_before x e m, k.1))

  insert_edge-Sorted :
      (e : Edge Float) (es : List (Edge Float)) → Sorted es → Sorted (insert_edge fl e es)
  unfolding insert_edge
  insert_edge-Sorted e [] k = tt
  insert_edge-Sorted e (x ∷ xs) k = go (edge_before fl x e) refl
    where
      go :
          (t : Bool)
          → edge_before fl x e ≡ t
          → Sorted (if t then x ∷ insert_edge fl e xs else e ∷ x ∷ xs)
      go true m = insert_edge-Climbing x e xs (at_most_after x e m) k
      go false m = (at_most_before x e m, k)

  pub sort_edges-Sorted : (es : List (Edge Float)) → Sorted (sort_edges fl es)
  unfolding sort_edges
  sort_edges-Sorted [] = tt
  sort_edges-Sorted (e ∷ es) = insert_edge-Sorted e (sort_edges fl es) (sort_edges-Sorted es)

  Climbing-from :
      (e x : Edge Float) (xs : List (Edge Float))
      → at_most e x ≡ true
      → Climbing x xs
      → Climbing e xs
  Climbing-from e x [] h k = tt
  Climbing-from e x (y ∷ ys) h k = (at_most_trans e x y h k.0, k.1)

  below_of_other :
      (e x : Edge Float)
      → at_most e x ≡ true
      → (e.u == x.u && e.v == x.v) ≡ false
      → below e x ≡ true
  below_of_other e x h k = ground (arith, h, k)

  dedupe_after-RisingFrom :
      (e : Edge Float) (es : List (Edge Float))
      → Climbing e es
      → RisingFrom e (dedupe_after fl e es)
  unfolding dedupe_after
  dedupe_after-RisingFrom e [] k = tt
  dedupe_after-RisingFrom e (x ∷ xs) k =
      go (e.u == x.u && e.v == x.v) refl
        (dedupe_after-RisingFrom e xs (Climbing-from e x xs k.0 k.1))
        (dedupe_after-RisingFrom x xs k.1)
    where
      go :
          (t : Bool)
          → (e.u == x.u && e.v == x.v) ≡ t
          → RisingFrom e (dedupe_after fl e xs)
          → RisingFrom x (dedupe_after fl x xs)
          → RisingFrom e (if t then dedupe_after fl e xs else x ∷ dedupe_after fl x xs)
      go true m same other = same
      go false m same other = (below_of_other e x k.0 m, other)

  pub dedupe-Rising : (es : List (Edge Float)) → Sorted es → Rising (dedupe fl es)
  unfolding dedupe
  dedupe-Rising [] k = tt
  dedupe-Rising (e ∷ es) k = dedupe_after-RisingFrom e es k

  module _ (P : Edge Float → Type 0) where
    insert_edge-All :
        (e : Edge Float) (es : List (Edge Float)) → P e → All P es → All P (insert_edge fl e es)
    unfolding insert_edge
    insert_edge-All e [] h k = (h, tt)
    insert_edge-All e (x ∷ xs) h k = go (edge_before fl x e) (insert_edge-All e xs h k.1)
      where
        go :
            (t : Bool)
            → All P (insert_edge fl e xs)
            → All P (if t then x ∷ insert_edge fl e xs else e ∷ x ∷ xs)
        go true rest = (k.0, rest)
        go false rest = (h, k)

    pub sort_edges-All : (es : List (Edge Float)) → All P es → All P (sort_edges fl es)
    unfolding sort_edges
    sort_edges-All [] k = tt
    sort_edges-All (e ∷ es) k = insert_edge-All e (sort_edges fl es) k.0 (sort_edges-All es k.1)

    dedupe_after-All :
        (e : Edge Float) (es : List (Edge Float)) → All P es → All P (dedupe_after fl e es)
    unfolding dedupe_after
    dedupe_after-All e [] k = tt
    dedupe_after-All e (x ∷ xs) k =
        go (e.u == x.u && e.v == x.v) (dedupe_after-All e xs k.1) (dedupe_after-All x xs k.1)
      where
        go :
            (t : Bool)
            → All P (dedupe_after fl e xs)
            → All P (dedupe_after fl x xs)
            → All P (if t then dedupe_after fl e xs else x ∷ dedupe_after fl x xs)
        go true same other = same
        go false same other = (k.0, other)

    pub dedupe-All : (es : List (Edge Float)) → All P es → All P (dedupe fl es)
    unfolding dedupe
    dedupe-All [] k = tt
    dedupe-All (e ∷ es) k = (k.0, dedupe_after-All e es k.1)
