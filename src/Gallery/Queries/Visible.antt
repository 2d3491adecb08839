-- ===== src/Gallery/Queries/Visible.antt =====
-- What the queries of src/store/identity.cpp on identities return.
use hvax.Prelude.{
  ℕ, ◌-◌, ◌^◌, ◌≤◌, ◌<◌, ◌≡◌, refl, sym, ap, subst, ◌∙◌, ◌⊎◌, inl, inr, Bool, true, false, not,
  ◌&&◌, Option, none, some, List, [], ◌∷◌, map, ◌==◌, if◌then◌else◌, count, length, All, arith,
  Bool-cases,
}
use hvax.Floats.{Floats}
use hvax.Hnsw.{Usearch}
use hvax.Vectors.{dot512}
use hvax.Scan.{ScanHit, scan}
use hvax.Scan.Sound.{
  count_row, sort_hits-All, count_row-sort_hits, length-sort_hits, IsHit, scan-IsHit, scan-distinct,
  scan-bounded,
}
use hvax.Types.{has, hidden_flag, slot_live}
use hvax.Gallery.Identities.{best_row}
use hvax.Gallery.Identities.Best.{IsEntry, best_row_lem}
use hvax.Gallery.Search.{Hit, hydrate_one}
use hvax.Gallery.Search.Row.{At, hydrate_one-At}
use hvax.Gallery.Invariant.{G, refers, IsConsistent}
use hvax.Gallery.Queries.{
  IdentityHit, identity_shown, best_face_of, identity_hit, best_identities, search_identities,
}

abbrev pub ids_of : {F : Type 0} → List (IdentityHit F) → List ℕ
ids_of [] = []
ids_of (h ∷ hits) = h.identity_id ∷ ids_of hits

module _ (fl : Floats) (us : Usearch fl.Float) (g : G fl us) where
  -- The best face of an identity, if there is one, is live, refers to the identity, and has its score.
  abbrev pub BestFace : List fl.Float → ℕ → Option (Hit fl.Float) → Type 0
  BestFace query id none = Unit
  BestFace query id (some h) =
      (refers fl us g id h.row ≡ true)
      × (slot_live (g.faces.at h.row).flags ≡ true)
      × (h.score ≡ dot512 fl query (g.embs.at h.row))

  best_face_of-BestFace :
      IsConsistent fl us g
      → (query : List fl.Float) (id : ℕ) (include_hidden : Bool) → id < g.identities.size
      → BestFace query id (best_face_of fl us g query id include_hidden)
  unfolding best_face_of
  best_face_of-BestFace c query id include_hidden h =
      go best (best_row_lem fl us g query (fl.neg (fl.lit 2 1)) (2 ^ 32 - 1) (g.members.at id))
    where
      best : ℕ × fl.Float
      best = best_row fl us g.embs query (fl.neg (fl.lit 2 1)) (2 ^ 32 - 1) (g.members.at id)

      found :
          (row : ℕ) (score : fl.Float) (o : Option (Hit fl.Float))
          → At fl us g row score o
          → IsEntry row (g.members.at id)
          → score ≡ dot512 fl query (g.embs.at row)
          → BestFace query id o
      found row score none a l e = tt
      found row score (some f) a l e = (
        ground (arith, a.0, l, c.membership.listed id row h),
        subst (λ r. slot_live (g.faces.at r).flags ≡ true) (sym a.0) a.2,
        a.1 ∙ e ∙ ap (λ r. dot512 fl query (g.embs.at r)) (sym a.0),
      )

      go :
          (o : ℕ × fl.Float)
          → ((o ≡ (2 ^ 32 - 1, fl.neg (fl.lit 2 1)))
              ⊎ (IsEntry o.0 (g.members.at id) × (o.1 ≡ dot512 fl query (g.embs.at o.0))))
          → BestFace query id
              (if o.0 == 2 ^ 32 - 1 then none else hydrate_one fl us g o.0 o.1 include_hidden)
      go o (inl e) =
          subst
            (λ o'.
              BestFace query id
                (if o'.0 == 2 ^ 32 - 1 then none else hydrate_one fl us g o'.0 o'.1 include_hidden))
            (sym e) tt
      go o (inr p) = elim (Bool-cases (o.0 == 2 ^ 32 - 1)) [
        | inl no_row ↦ rw no_row tt
        | inr row ↦ rw row (
            found o.0 o.1 (hydrate_one fl us g o.0 o.1 include_hidden)
              (hydrate_one-At fl us g o.0 o.1 include_hidden) p.0 p.1)
      ]

  -- A hit of search_identities: a row of the identity table with its slot, live, hidden only if that
  -- is asked for, with the score of its centroid, which is not under the floor.
  pub record IsIdentityHit (query : List fl.Float) (min_score : fl.Float) (include_hidden : Bool)
      (h : IdentityHit fl.Float) : Type 0 where
    pub inside : h.identity_id < g.identities.size
    pub slot : h.slot ≡ g.identities.at h.identity_id
    pub live : slot_live h.slot.flags ≡ true
    pub shown : (has hidden_flag h.slot.flags && not include_hidden) ≡ false
    pub score : h.score ≡ dot512 fl query (g.centroid_norm.at h.identity_id)
    pub floor : fl.lt h.score min_score ≡ false
    pub best_face : BestFace query h.identity_id h.best_face

  module _ (c : IsConsistent fl us g) (query : List fl.Float) (k : ℕ) (min_score : fl.Float)
      (include_hidden : Bool) where
    abbrev skipped : ℕ → Bool
    skipped id = not (identity_shown fl us g include_hidden id)

    abbrev score_of : ℕ → fl.Float
    score_of id = dot512 fl query (g.centroid_norm.at id)

    abbrev scanned : List (ScanHit fl)
    scanned = scan fl k skipped min_score score_of g.identities.size

    abbrev Found : ScanHit fl → Type 0
    Found = IsHit fl k skipped min_score score_of g.identities.size

    identity_shown_lem :
        (id : ℕ)
        → id < g.identities.size
        → identity_shown fl us g include_hidden id ≡ true
        → (slot_live (g.identities.at id).flags ≡ true)
          × ((has hidden_flag (g.identities.at id).flags && not include_hidden) ≡ false)
    unfolding identity_shown
    identity_shown_lem id h e = (ground (arith, e), ground (arith, e, c.mirrored id h))

    identity_hit-IsIdentityHit :
        (it : ScanHit fl)
        → Found it
        → IsIdentityHit query min_score include_hidden
            (identity_hit fl us g query include_hidden it)
    unfolding identity_hit
    identity_hit-IsIdentityHit it f =
        let e = identity_shown_lem it.row f.row (ground (arith, f.allowed)) in
        record {
          inside = f.row;
          slot = refl;
          live = e.0;
          shown = e.1;
          score = f.score;
          floor = f.floor;
          best_face = best_face_of-BestFace c query it.row include_hidden f.row;
        }

    map-IsIdentityHit :
        (hits : List (ScanHit fl))
        → All Found hits
        → All
            (IsIdentityHit query min_score include_hidden)
            (map (identity_hit fl us g query include_hidden) hits)
    map-IsIdentityHit [] a = tt
    map-IsIdentityHit (x ∷ hits) a = (identity_hit-IsIdentityHit x a.0, map-IsIdentityHit hits a.1)

    count-ids_of :
        (id : ℕ) (hits : List (ScanHit fl))
        → (count id (ids_of (map (identity_hit fl us g query include_hidden) hits))
            ≡ count_row fl id hits)
          × (length (map (identity_hit fl us g query include_hidden) hits) ≡ length hits)
    unfolding identity_hit
    count-ids_of id [] = (refl, refl)
    count-ids_of id (x ∷ hits) =
        let rest = count-ids_of id hits in (ground (arith, rest), ground (arith, rest))

    best_identities_lem :
        (id : ℕ)
        → let hits = best_identities fl us g query k min_score include_hidden in
          All Found hits × (length hits ≤ k) × (count_row fl id hits ≤ 1)
    unfolding best_identities
    best_identities_lem id = elim (Bool-cases (k == 0)) [
      | inl none_wanted ↦ rw none_wanted (tt, omega arith, omega arith)
      | inr some_wanted ↦ rw some_wanted (
        sort_hits-All fl Found scanned
            (scan-IsHit fl k skipped min_score score_of g.identities.size),
        omega (
          arith,
          length-sort_hits fl scanned,
          scan-bounded fl k skipped min_score score_of g.identities.size,
        ),
        omega (
          arith,
          count_row-sort_hits fl id scanned,
          scan-distinct fl k skipped min_score score_of g.identities.size id,
        ),
      )
    ]

    -- In a consistent gallery search_identities returns hits of live identities, hidden ones only if
    -- that is asked for, with the score of the centroid, not under the floor, and with a best face
    -- that is a live member; at most k of them, no identity twice.
    pub search_identities_lem :
        (id : ℕ)
        → let hits = search_identities fl us g query k min_score include_hidden in
          All (IsIdentityHit query min_score include_hidden) hits
          × (length hits ≤ k)
          × (count id (ids_of hits) ≤ 1)
    unfolding search_identities
    search_identities_lem id =
        let hits = best_identities fl us g query k min_score include_hidden in
        let best = best_identities_lem id in
        let counted = count-ids_of id hits in
        (
          map-IsIdentityHit hits best.0,
          omega (arith, counted.1, best.1),
          omega (arith, counted.0, best.2),
        )
