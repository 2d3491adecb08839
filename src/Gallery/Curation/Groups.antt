-- ===== src/Gallery/Curation/Groups.antt =====
-- dissolve_identity, and the loop of merge_identities, of src/store/identity.cpp.
use native.Mathlib.Decide.{ℕ_discrete}
use hvax.Prelude.{
  ℕ, zero, suc, ◌≤◌, ◌<◌, ◌≡◌, ◌≢◌, refl, ◌∙◌, Bool, false, inl, Option, none, some, List, [], ◌∷◌,
  ◌++◌, ltb, ◌==◌, if◌then◌else◌, arith, put, count, count-append, All, ℤ, sym, subst,
}
use hvax.Prelude.Sort.Laws.{Rising}
use hvax.Floats.{Floats}
use hvax.Hnsw.{Usearch}
use hvax.Gallery.Invariant.{G, HasMembers, IsConsistent, IsConsistentBarring}
use hvax.Gallery.Identities.Recompute.{
  recompute-IsConsistent, recompute-IsConsistentBarring, size-recompute, faces-recompute,
}
use hvax.Gallery.Curation.{
  live_identity, absorb, absorb_all, dissolve_row, dissolve_at, dissolve_identity,
}
use hvax.Gallery.Curation.Slots.{unpin-IsConsistent, live_identity_lem}
use hvax.Gallery.Curation.Moves.{
  relisted, relisted-IsAligned, relisted-HasFaces, relisted-HasMembers, ref-set_refs, size-set_refs,
}

-- Whether a face with the reference `ref` belongs to one of the identities `srcs`.
abbrev pub joins : List ℕ → ℕ → Bool
joins srcs zero = false
joins srcs (suc id) = ltb 0 (count id srcs)

module _ (fl : Floats) (us : Usearch fl.Float) where
  dissolve_row-IsConsistent :
      (g : G fl us) (id now : ℕ)
      → IsConsistent fl us g
      → id < g.identities.size
      → IsConsistent fl us (dissolve_row fl us g id now)
  unfolding dissolve_row
  dissolve_row-IsConsistent g id now c inside =
      let rows = g.members.at id in
      let lists = put g.members id [] in
      let m = c.membership in
      unpin-IsConsistent fl us _ id (
        recompute-IsConsistent fl us (relisted fl us g rows 0 lists) id now
          (relisted-IsAligned fl us g rows 0 lists refl c.aligned)
          (relisted-HasMembers fl us g rows 0 lists m (omega arith) (λ r h n. inl refl)
            (λ j r h. ground (arith, m.listed j r h, m.listed id r inside)))
          (λ j h n. record {
            size = ground (arith, (c.counted j h).size, n);
            live = ground (arith, (c.counted j h).live, n);
          })
          c.mirrored (relisted-HasFaces fl us g rows 0 lists c.faces))

  -- Dissolving an identity, whatever its id, keeps the gallery consistent.
  pub dissolve_identity-IsConsistent :
      (g : G fl us) (identity_id : ℤ) (now : ℕ)
      → IsConsistent fl us g
      → IsConsistent fl us (dissolve_identity fl us g identity_id now).1
  unfolding dissolve_identity
  dissolve_identity-IsConsistent g identity_id now c =
      go (live_identity fl us g identity_id)
        (λ id e. (live_identity_lem fl us g identity_id id e).0)
    where
      go :
          (o : Option ℕ)
          → ((id : ℕ) → o ≡ some id → id < g.identities.size)
          → IsConsistent fl us (dissolve_at fl us g o now).1
      go none h = unfold dissolve_at in c
      go (some id) h = unfold dissolve_at in dissolve_row-IsConsistent g id now c (h id refl)

  module _ (g : G fl us) (target src now : ℕ) (u : IsConsistentBarring fl us target g)
      (inside : target < g.identities.size) (inside' : src < g.identities.size)
      (other : src ≢ target) where
    abbrev absorbed : G fl us
    absorbed =
        relisted fl us g (g.members.at src) (suc target)
          (put (put g.members target (g.members.at target ++ g.members.at src)) src [])

    absorbed-HasMembers : HasMembers fl us absorbed
    absorbed-HasMembers =
        let m = u.membership in
        relisted-HasMembers fl us g (g.members.at src) (suc target)
          (put (put g.members target (g.members.at target ++ g.members.at src)) src []) m inside
          (λ r h n. ground (arith, m.indexable r h, m.listed src r inside', n))
          (λ j r h. ground (
            arith,
            m.listed j r h,
            m.listed src r inside',
            m.listed target r inside,
            count-append r (g.members.at target) (g.members.at src),
            other,
          ))

    absorb-IsConsistentBarring : IsConsistentBarring fl us target (absorb fl us g target src now)
    unfolding absorb
    absorb-IsConsistentBarring =
        recompute-IsConsistentBarring fl us absorbed src now target inside'
          (relisted-IsAligned fl us g (g.members.at src) (suc target) _ refl u.aligned)
          absorbed-HasMembers
          (λ j h n n'. record {
            size = ground (arith, (u.counted j h n).size, n, n');
            live = ground (arith, (u.counted j h n).live, n, n');
          })
          u.mirrored (relisted-HasFaces fl us g (g.members.at src) (suc target) _ u.faces)

    -- The faces of `src` refer to `target`, all others to what they did.
    ref-absorb :
        (r : ℕ)
        → r < g.faces.size
        → ((absorb fl us g target src now).faces.at r).identity_ref ≡ (
            if (g.faces.at r).identity_ref == suc src
            then suc target
            else (g.faces.at r).identity_ref)
    unfolding absorb
    ref-absorb r h = rw (faces-recompute fl us absorbed src now) (
        ground (
          arith,
          ref-set_refs fl us (suc target) g.faces (g.members.at src) r,
          u.membership.listed src r inside',
          h,
        ))

    size-absorb : (absorb fl us g target src now).identities.size ≡ g.identities.size
    unfolding absorb
    size-absorb = size-recompute fl us absorbed src now

    faces-absorb : (absorb fl us g target src now).faces.size ≡ g.faces.size
    unfolding absorb
    faces-absorb =
        rw (faces-recompute fl us absorbed src now)
          (size-set_refs fl us (suc target) g.faces (g.members.at src))

  pub record Absorbed (target : ℕ) (srcs : List ℕ) (g g' : G fl us) : Type 0 where
    pub state : IsConsistentBarring fl us target g'
    pub identities : g'.identities.size ≡ g.identities.size
    pub size : g'.faces.size ≡ g.faces.size
    pub refs :
        (r : ℕ)
        → r < g.faces.size
        → (g'.faces.at r).identity_ref ≡ (
            if joins srcs (g.faces.at r).identity_ref
            then suc target
            else (g.faces.at r).identity_ref)

  joins-step :
      (target src : ℕ) (srcs : List ℕ) (ref ref' : ℕ)
      → ref' ≡ (if ref == suc src then suc target else ref)
      → (if joins srcs ref' then suc target else ref')
        ≡ (if joins (src ∷ srcs) ref then suc target else ref)
  joins-step target src srcs zero zero e = refl
  joins-step target src srcs zero (suc j) e = ground (arith, e)
  joins-step target src srcs (suc id) zero e = ground (arith, e)
  joins-step target src srcs (suc id) (suc j) e = elim (ℕ_discrete id src) [
    | yes same ↦ ground (arith, e, same)
    | no other ↦ ground (arith, e, other)
  ]

  Rising-weaken : (x y : ℕ) (ys : List ℕ) → x ≤ y → Rising y ys → Rising x ys
  Rising-weaken x y [] le h = tt
  Rising-weaken x y (z ∷ zs) le h = (omega (arith, le, h.0), h.1)

  pub absorb_all-Absorbed :
      (g : G fl us) (target : ℕ) (srcs : List ℕ) (now : ℕ)
      → IsConsistentBarring fl us target g
      → target < g.identities.size
      → All (λ j. j < g.identities.size) srcs
      → Rising target srcs
      → Absorbed target srcs g (absorb_all fl us g target srcs now)
  unfolding absorb_all
  absorb_all-Absorbed g target [] now u inside below rising = record {
    state = u;
    identities = refl;
    size = refl;
    refs = λ r h. go (g.faces.at r).identity_ref;
  }
    where
      go : (ref : ℕ) → ref ≡ (if joins [] ref then suc target else ref)
      go zero = refl
      go (suc id) = ground arith
  absorb_all-Absorbed g target (src ∷ srcs) now u inside below rising =
      let next = absorb fl us g target src now in
      let other : src ≢ target = ground (arith, rising.0) in
      let sizes = size-absorb g target src now u inside below.0 other in
      let faces = faces-absorb g target src now u inside below.0 other in
      let rest =
        absorb_all-Absorbed next target srcs now
          (absorb-IsConsistentBarring g target src now u inside below.0 other)
          (omega (arith, sizes, inside)) (subst (λ n. All (λ j. j < n) srcs) (sym sizes) below.1)
          (Rising-weaken target src srcs (omega (arith, rising.0)) rising.1) in
      record {
        state = rest.state;
        identities = rest.identities ∙ sizes;
        size = rest.size ∙ faces;
        refs = λ r h.
            rest.refs r (omega (arith, faces, h))
            ∙ joins-step target src srcs (g.faces.at r).identity_ref _
                (ref-absorb g target src now u inside below.0 other r h);
      }
