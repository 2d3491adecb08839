-- ===== src/Gallery/Search/Groups.antt =====
-- group_hits of src/store/gallery.cpp returns at most k hits, and one for each identity.
use hvax.Prelude.{
  ℕ, ◌+◌, ◌≤◌, ◌≡◌, refl, false, List, [], ◌∷◌, ◌++◌, ltb, ◌==◌, if◌then◌else◌, length,
  length-append, arith, ℤ, pos, negsuc,
}
use hvax.Floats.{Floats}
use hvax.Gallery.Search.{Hit, is_id, seen, bump, group_step, group_loop, group_hits}

module _ (fl : Floats) where
  -- How many hits are of identity `id`.
  abbrev pub count_id : ℕ → List (Hit fl.Float) → ℕ
  count_id id [] = 0
  count_id id (h ∷ hits) = (if is_id fl id h.identity_id then 1 else 0) + count_id id hits

  count_id-append :
      (id : ℕ) (xs ys : List (Hit fl.Float))
      → count_id id (xs ++ ys) ≡ count_id id xs + count_id id ys
  count_id-append id [] ys = ground arith
  count_id-append id (x ∷ xs) ys = ground (arith, count_id-append id xs ys)

  seen_lem : (id : ℕ) (hits : List (Hit fl.Float)) → seen fl id hits ≡ ltb 0 (count_id id hits)
  unfolding seen
  seen_lem id [] = refl
  seen_lem id (h ∷ hits) = ground (arith, seen_lem id hits)

  count_id-bump :
      (id j : ℕ) (hits : List (Hit fl.Float)) → count_id id (bump fl j hits) ≡ count_id id hits
  unfolding bump
  count_id-bump id j [] = refl
  count_id-bump id j (h ∷ hits) = ground (arith, count_id-bump id j hits)

  length-bump : (j : ℕ) (hits : List (Hit fl.Float)) → length (bump fl j hits) ≡ length hits
  unfolding bump
  length-bump j [] = refl
  length-bump j (h ∷ hits) = ground (arith, length-bump j hits)

  length-group_step :
      (k : ℕ) (out : List (Hit fl.Float)) (h : Hit fl.Float) (i : ℤ)
      → length out ≤ k
      → length (group_step fl k out h i) ≤ k
  unfolding group_step
  length-group_step k out h (negsuc n) le = ground (arith, length-append out (h ∷ []), le)
  length-group_step k out h (pos id) le =
      ground (arith, length-append out (h ∷ []), length-bump id out, le)

  count_id-group_step :
      (k id : ℕ) (out : List (Hit fl.Float)) (h : Hit fl.Float) (i : ℤ)
      → h.identity_id ≡ i
      → count_id id out ≤ 1
      → count_id id (group_step fl k out h i) ≤ 1
  unfolding group_step is_id
  count_id-group_step k id out h (negsuc n) e le =
      let other : is_id fl id h.identity_id ≡ false = rw e refl in
      ground (arith, count_id-append id out (h ∷ []), other, le)
  count_id-group_step k id out h (pos j) e le =
      let own : is_id fl id h.identity_id ≡ (j == id) = rw e refl in
      ground
        (arith, count_id-append id out (h ∷ []), count_id-bump id j out, seen_lem j out, own, le)

  group_loop_lem :
      (k id : ℕ) (out hits : List (Hit fl.Float))
      → length out ≤ k
      → count_id id out ≤ 1
      → (length (group_loop fl k out hits) ≤ k) × (count_id id (group_loop fl k out hits) ≤ 1)
  unfolding group_loop
  group_loop_lem k id out [] le c = (le, c)
  group_loop_lem k id out (h ∷ hits) le c =
      group_loop_lem k id (group_step fl k out h h.identity_id) hits
        (length-group_step k out h h.identity_id le)
        (count_id-group_step k id out h h.identity_id refl c)

  -- At most `k` hits remain, and no identity has two of them.
  pub group_hits_lem :
      (hits : List (Hit fl.Float)) (k id : ℕ)
      → (length (group_hits fl hits k) ≤ k) × (count_id id (group_hits fl hits k) ≤ 1)
  unfolding group_hits
  group_hits_lem hits k id = group_loop_lem k id [] hits (omega arith) (omega arith)
