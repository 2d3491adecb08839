-- ===== src/Gallery/Identities/Create.antt =====
-- new_identity_locked of src/store/identity.cpp: a row for a new identity, which has no members yet.
use hvax.Prelude.{ℕ, zero, suc, ◌+◌, ◌<◌, ◌≡◌, refl, Bool, false, [], arith, ◌==◌, if◌then◌else◌}
use hvax.Floats.{Floats}
use hvax.Hnsw.{Usearch}
use hvax.Types.{has}
use hvax.Gallery.Invariant.{G, tally, IsAligned, IsConsistent, IsConsistentBarring, SameImages}
use hvax.Gallery.Identities.{new_identity}

tally-push :
    (f : ℕ → Bool) (m n : ℕ) → n < m + 1 → tally (λ j. if j == m then false else f j) n ≡ tally f n
tally-push f m zero h = refl
tally-push f m (suc n) h = ground (arith, tally-push f m n, h)

module _ (fl : Floats) (us : Usearch fl.Float) (g : G fl us) (now : ℕ) where
  pub new_identity-IsAligned : IsAligned fl us g → IsAligned fl us (new_identity fl us g now)
  unfolding new_identity
  new_identity-IsAligned a = record {
    embs = a.embs;
    embs_i8 = a.embs_i8;
    flags_cache = a.flags_cache;
    image_faces = a.image_faces;
    members = omega (arith, a.members);
    hidden = omega (arith, a.hidden);
    tallied =
        ground (arith, a.tallied, tally-push g.hidden.at g.hidden.size g.hidden.size (omega arith));
    centroids = omega (arith, a.centroids);
    rows_fit = a.rows_fit;
  }

  pub new_identity-IsConsistentBarring :
      IsConsistent fl us g → IsConsistentBarring fl us g.identities.size (new_identity fl us g now)
  unfolding new_identity has
  new_identity-IsConsistentBarring c = record {
    aligned = new_identity-IsAligned c.aligned;
    membership = record {
      listed = λ id r h.
          ground (arith, c.membership.listed id r, c.membership.in_range r, c.aligned.members, h);
      in_range = λ r h. ground (arith, c.membership.in_range r h);
      indexable = c.membership.indexable;
    };
    counted = λ j h n. record {
      size = ground (arith, (c.counted j (omega (arith, h, n))).size, c.aligned.members, h, n);
      live = ground (arith, (c.counted j (omega (arith, h, n))).live, c.aligned.members, h, n);
    };
    mirrored = λ j h. ground (arith, c.mirrored j, c.aligned.hidden, h);
    faces = record {
      cached = c.faces.cached;
      shown = c.faces.shown;
      on_image = c.faces.on_image;
      indexed = c.faces.indexed;
    };
  }

  pub size-new_identity : (new_identity fl us g now).identities.size ≡ suc g.identities.size
  unfolding new_identity
  size-new_identity = omega arith

  pub faces-new_identity : (new_identity fl us g now).faces ≡ g.faces
  unfolding new_identity
  faces-new_identity = refl

  pub members-new_identity :
      (j : ℕ)
      → (new_identity fl us g now).members.at j
        ≡ (if j == g.members.size then [] else g.members.at j)
  unfolding new_identity
  members-new_identity j = refl

  pub new_identity-SameImages : SameImages fl us g (new_identity fl us g now)
  unfolding new_identity
  new_identity-SameImages = (refl, refl, refl)
