-- ===== src/Gallery/Curation/Slots.antt =====
-- The calls of src/store/identity.cpp that change the slot of one identity: hiding, renaming, pinning.
use native.Mathlib.Decide.{ℕ_discrete}
use hvax.Prelude.{
  ℕ, zero, suc, ◌+◌, ◌≤◌, ◌<◌, ◌≡◌, ◌^◌, refl, Bool, true, false, ◌&&◌, Option, none, some, ltb,
  ◌==◌, if◌then◌else◌, List, arith, put, Bool-cases, inl, inr, ℤ, pos, negsuc,
}
use hvax.Floats.{Floats}
use hvax.Hnsw.{Usearch}
use hvax.Types.{
  IdentitySlot, hidden_flag, has, set_flag, slot_live, face_indexable, has-tombstone-set_pinned,
  has-tombstone-clear_pinned, has_hidden-set_pinned, has_hidden-clear_pinned, has_hidden-set_hidden,
  has_hidden-clear_hidden, has-tombstone-set_hidden, has-tombstone-clear_hidden,
}
use hvax.Gallery.Invariant.{G, tally, IsConsistent, IsConsistent-but}
use hvax.Gallery.Identities.{identity_live, assign}
use hvax.Gallery.Identities.Assign.{assign-IsConsistent, unassign-IsConsistent}
use hvax.Gallery.Curation.{
  live_identity, pin, unpin, hidden_flags, hidden_count_after, hide_row, hide_at,
  set_identity_hidden, rename_row, rename_at, rename_identity, assign_row, assign_face,
}

tally-put :
    (f : ℕ → Bool) (i : ℕ) (b : Bool) (n : ℕ)
    → tally (λ j. if j == i then b else f j) n + (if ltb i n then (if f i then 1 else 0) else 0)
      ≡ tally f n + (if ltb i n then (if b then 1 else 0) else 0)
tally-put f i b zero = ground arith
tally-put f i b (suc n) = elim (ℕ_discrete n i) [
  | yes same ↦ ground (arith, tally-put f i b n, same)
  | no other ↦ ground (arith, tally-put f i b n, other)
]

tally-bounds : (f : ℕ → Bool) (n : ℕ) → tally f n ≤ n
tally-bounds f zero = omega arith
tally-bounds f (suc n) = ground (arith, tally-bounds f n)

module _ (fl : Floats) (us : Usearch fl.Float) where
  -- A slot may change in what the invariant does not speak of, and with its mirror in whether it is
  -- hidden.
  pub reid :
      (g : G fl us) (id : ℕ) (x : IdentitySlot) (b : Bool) (n : ℕ)
      → IsConsistent fl us g
      → x.size ≡ (g.identities.at id).size
      → slot_live x.flags ≡ slot_live (g.identities.at id).flags
      → b ≡ has hidden_flag x.flags
      → n ≡ tally (λ j. if j == id then b else g.hidden.at j) g.hidden.size
      → IsConsistent fl us (record g {
        identities = put g.identities id x;
        hidden = put g.hidden id b;
        hidden_count = n;
      })
  reid g id x b n c size live mirror count = record {
    aligned = record {
      embs = c.aligned.embs;
      embs_i8 = c.aligned.embs_i8;
      flags_cache = c.aligned.flags_cache;
      image_faces = c.aligned.image_faces;
      members = c.aligned.members;
      hidden = c.aligned.hidden;
      tallied = count;
      centroids = c.aligned.centroids;
      rows_fit = c.aligned.rows_fit;
    };
    membership = record {
      listed = c.membership.listed;
      in_range = c.membership.in_range;
      indexable = c.membership.indexable;
    };
    counted = λ j h. record {
      size = ground (arith, (c.counted j h).size, size);
      live = ground (arith, (c.counted j h).live, live);
    };
    mirrored = λ j h. ground (arith, c.mirrored j h, mirror);
    faces = record {
      cached = c.faces.cached;
      shown = c.faces.shown;
      on_image = c.faces.on_image;
      indexed = c.faces.indexed;
    };
  }

  -- A change of a slot that leaves its size, its life and whether it is hidden.
  pub reslot_identity :
      (g : G fl us) (id : ℕ) (x : IdentitySlot)
      → IsConsistent fl us g
      → x.size ≡ (g.identities.at id).size
      → slot_live x.flags ≡ slot_live (g.identities.at id).flags
      → has hidden_flag x.flags ≡ has hidden_flag (g.identities.at id).flags
      → IsConsistent fl us (record g { identities = put g.identities id x })
  reslot_identity g id x c size live hidden = record {
    aligned = record {
      embs = c.aligned.embs;
      embs_i8 = c.aligned.embs_i8;
      flags_cache = c.aligned.flags_cache;
      image_faces = c.aligned.image_faces;
      members = c.aligned.members;
      hidden = c.aligned.hidden;
      tallied = c.aligned.tallied;
      centroids = c.aligned.centroids;
      rows_fit = c.aligned.rows_fit;
    };
    membership = record {
      listed = c.membership.listed;
      in_range = c.membership.in_range;
      indexable = c.membership.indexable;
    };
    counted = λ j h. record {
      size = ground (arith, (c.counted j h).size, size);
      live = ground (arith, (c.counted j h).live, live);
    };
    mirrored = λ j h. ground (arith, c.mirrored j h, hidden);
    faces = record {
      cached = c.faces.cached;
      shown = c.faces.shown;
      on_image = c.faces.on_image;
      indexed = c.faces.indexed;
    };
  }

  live-hidden_flags : (b : Bool) (w : ℕ) → slot_live (hidden_flags fl us b w) ≡ slot_live w
  unfolding slot_live hidden_flags
  live-hidden_flags true w =
      rw (has-tombstone-set_pinned (set_flag hidden_flag w), has-tombstone-set_hidden w) refl
  live-hidden_flags false w = rw (has-tombstone-clear_hidden w) refl

  has-hidden_flags : (b : Bool) (w : ℕ) → has hidden_flag (hidden_flags fl us b w) ≡ b
  unfolding hidden_flags
  has-hidden_flags true w =
      rw (has_hidden-set_pinned (set_flag hidden_flag w)) (has_hidden-set_hidden w)
  has-hidden_flags false w = has_hidden-clear_hidden w

  -- The count follows the mirror.
  count-hidden :
      (f : ℕ → Bool) (id n : ℕ) (b flag : Bool)
      → id < n
      → n < 2 ^ 64
      → f id ≡ flag
      → hidden_count_after fl us b flag (tally f n) ≡ tally (λ j. if j == id then b else f j) n
  unfolding hidden_count_after
  count-hidden f id n true true inside small e = ground (arith, tally-put f id true n, e)
  count-hidden f id n true false inside small e =
      ground (arith, tally-put f id true n, tally-bounds (λ j. if j == id then true else f j) n, e)
  count-hidden f id n false true inside small e = ground (arith, tally-put f id false n, e)
  count-hidden f id n false false inside small e = ground (arith, tally-put f id false n, e)

  -- Hiding or showing the identity in row `id`, with the count of hidden identities.
  pub hide_row-IsConsistent :
      (g : G fl us) (id : ℕ) (b : Bool) (now : ℕ)
      → IsConsistent fl us g
      → id < g.identities.size
      → g.identities.size < 2 ^ 64
      → IsConsistent fl us (hide_row fl us g id b now)
  unfolding hide_row
  hide_row-IsConsistent g id b now c inside small =
      let s = g.identities.at id in
      reid g id (record s { flags = hidden_flags fl us b s.flags; updated_at = now }) b
        (hidden_count_after fl us b (has hidden_flag s.flags) g.hidden_count) c refl
        (live-hidden_flags b s.flags) (sym' (has-hidden_flags b s.flags))
        (rw (c.aligned.tallied) (
          count-hidden g.hidden.at id g.hidden.size b (has hidden_flag s.flags)
            (omega (arith, inside, c.aligned.hidden)) (omega (arith, small, c.aligned.hidden))
            (c.mirrored id inside)))
    where
      sym' : {x y : Bool} → x ≡ y → y ≡ x
      sym' e = cc

  rename_row-IsConsistent :
      (g : G fl us) (id : ℕ) (name : List ℕ) (now : ℕ)
      → IsConsistent fl us g
      → IsConsistent fl us (rename_row fl us g id name now)
  unfolding rename_row slot_live
  rename_row-IsConsistent g id name now c =
      let w = (g.identities.at id).flags in
      reslot_identity g id _ c refl (rw (has-tombstone-set_pinned w) refl) (has_hidden-set_pinned w)

  pub pin-IsConsistent :
      (g : G fl us) (id : ℕ) → IsConsistent fl us g → IsConsistent fl us (pin fl us g id)
  unfolding pin slot_live
  pin-IsConsistent g id c =
      let w = (g.identities.at id).flags in
      reslot_identity g id _ c refl (rw (has-tombstone-set_pinned w) refl) (has_hidden-set_pinned w)

  pub unpin-IsConsistent :
      (g : G fl us) (id : ℕ) → IsConsistent fl us g → IsConsistent fl us (unpin fl us g id)
  unfolding unpin slot_live
  unpin-IsConsistent g id c =
      let w = (g.identities.at id).flags in
      reslot_identity g id _ c refl (rw (has-tombstone-clear_pinned w) refl)
        (has_hidden-clear_pinned w)

  pub live_identity_lem :
      (g : G fl us) (identity_id : ℤ) (id : ℕ)
      → live_identity fl us g identity_id ≡ some id
      → (id < g.identities.size)
        × (slot_live (g.identities.at id).flags ≡ true)
        × (identity_id ≡ pos id)
  unfolding live_identity identity_live
  live_identity_lem g (negsuc n) id e = cc
  live_identity_lem g (pos j) id e = (ground (arith, e), ground (arith, e), ground (arith, e))

  -- Hiding or showing an identity, whatever its id, keeps the gallery consistent.
  pub set_identity_hidden-IsConsistent :
      (g : G fl us) (identity_id : ℤ) (b : Bool) (now : ℕ)
      → IsConsistent fl us g
      → g.identities.size < 2 ^ 64
      → IsConsistent fl us (set_identity_hidden fl us g identity_id b now).1
  unfolding set_identity_hidden
  set_identity_hidden-IsConsistent g identity_id b now c small =
      go (live_identity fl us g identity_id) λ id e. (live_identity_lem g identity_id id e).0
    where
      go :
          (o : Option ℕ)
          → ((id : ℕ) → o ≡ some id → id < g.identities.size)
          → IsConsistent fl us (hide_at fl us g o b now).1
      go none h = unfold hide_at in c
      go (some id) h = unfold hide_at in hide_row-IsConsistent g id b now c (h id refl) small

  pub rename_identity-IsConsistent :
      (g : G fl us) (identity_id : ℤ) (name : List ℕ) (now : ℕ)
      → IsConsistent fl us g
      → IsConsistent fl us (rename_identity fl us g identity_id name now).1
  unfolding rename_identity
  rename_identity-IsConsistent g identity_id name now c = go (live_identity fl us g identity_id)
    where
      go : (o : Option ℕ) → IsConsistent fl us (rename_at fl us g o name now).1
      go none = unfold rename_at in c
      go (some id) = unfold rename_at in rename_row-IsConsistent g id name now c

  assign_row-IsConsistent :
      (g : G fl us) (row : ℕ) (id : ℤ) (now : ℕ)
      → IsConsistent fl us g
      → row < g.faces.size
      → face_indexable (g.faces.at row).flags ≡ true
      → IsConsistent fl us (assign_row fl us g row id now).1
  unfolding assign_row
  assign_row-IsConsistent g row (negsuc n) now c inside indexable =
      unassign-IsConsistent fl us g row now (IsConsistent-but fl us row c) inside
  assign_row-IsConsistent g row (pos id) now c inside indexable =
      elim (Bool-cases (identity_live fl us g (pos id))) [
        | inl live ↦ rw live (
            pin-IsConsistent (assign fl us g row id now) id (
              assign-IsConsistent fl us g row id now c inside
                (unfold identity_live in ground (arith, live)) indexable))
        | inr dead ↦ rw dead c
      ]

  -- Moving a face into an identity, or out of its own, keeps the gallery consistent.
  pub assign_face-IsConsistent :
      (g : G fl us) (face_id identity_id : ℤ) (now : ℕ)
      → IsConsistent fl us g
      → IsConsistent fl us (assign_face fl us g face_id identity_id now).1
  unfolding assign_face
  assign_face-IsConsistent g (negsuc n) identity_id now c = c
  assign_face-IsConsistent g (pos row) identity_id now c =
      elim (Bool-cases (ltb row g.faces.size && face_indexable (g.faces.at row).flags)) [
        | inl there ↦ rw there (
            assign_row-IsConsistent g row identity_id now c (ground (arith, there))
              (ground (arith, there)))
        | inr other ↦ rw other c
      ]
