-- ===== src/Engine/Repeat.antt =====
-- An upload that repeats one, and one that was checked before, in src/engine.cpp.
use hvax.Prelude.{
  ℕ, ◌+◌, ◌*◌, ◌≤◌, ◌≡◌, ◌^◌, refl, sym, ap, subst, ◌∙◌, Bool, true, false, not, ◌||◌, Option, none,
  some, ◌>>=◌, List, ltb, leb, ◌==◌, if◌then◌else◌, length, arith, Bool-cases, some-inj, inl, inr,
  ◌⊎◌, pos, negsuc,
}
use hvax.Floats.{Floats}
use hvax.Hnsw.{Usearch}
use hvax.Types.{DetectedFace, ImageSlot}
use hvax.Gallery.State.{Config}
use hvax.Gallery.Invariant.{G}
use hvax.Gallery.Images.{Picture, find_by_sha}
use hvax.Gallery.Images.Keep.{IsSound}
use hvax.Gallery.Upgrade.Keep.{found_id}
use hvax.Gallery.Dedup.{DedupHit, find_perceptual}
use hvax.Gallery.Reads.{image}
use hvax.Engine.{
  stored, duplicate, upgraded, IngestResult, Result, none_of, duplicate_of, replace_if_larger,
  persist_dup, persist_sha, persist_ingest, by_perceptual, IngestCheckResult, no_check, checked_as,
  check_dup, check_sha, check_ingest, confirm_soft,
}
use hvax.Engine.Persist.{Effect, persist_ingest-Persisted}

pos-inj : {m n : ℕ} → pos m ≡ pos n → m ≡ n
pos-inj {m} {n} e = ap (λ z. elim z [ pos k ↦ k | negsuc _ ↦ m ]) e

module _ (fl : Floats) (us : Usearch fl.Float) where
  -- A digest that is known is answered with its image, and nothing changes.
  abbrev pub IsRepeat : Option (Result fl us) → ℕ → G fl us → Type 0
  IsRepeat none id g = ⊥
  IsRepeat (some r) id g = (r.0.status ≡ duplicate) × (r.0.image_id ≡ id) × (r.1 ≡ g)

  persist_sha-known :
      (cfg : Config fl.Float) (g : G fl us) (p : Picture) (faces : List (DetectedFace fl.Float))
      (now id : ℕ) (o : Option ImageSlot)
      → found_id o ≡ some (pos id)
      → IsRepeat (persist_sha fl us cfg g p faces now o) id g
  unfolding persist_sha duplicate_of
  persist_sha-known cfg g p faces now id none e = absurd cc
  persist_sha-known cfg g p faces now id (some hit) e = (refl, pos-inj (some-inj e), refl)

  -- A picture that was stored, or has become a master, is answered as a duplicate when it comes again,
  -- with the id of the first answer, whatever faces are found and whenever it comes; the gallery does
  -- not change.
  pub persist_ingest-idempotent :
      (cfg : Config fl.Float) (g : G fl us) (p : Picture)
      (faces again : List (DetectedFace fl.Float)) (now later : ℕ)
      → IsSound fl us g
      → g.faces.size + length faces ≤ 2 ^ 32
      → (r : IngestResult fl.Float) (g' : G fl us)
      → persist_ingest fl us cfg g p faces now ≡ some (r, g')
      → (r.status ≡ stored) ⊎ (r.status ≡ upgraded)
      → IsRepeat (persist_ingest fl us cfg g' p again later) r.image_id g'
  unfolding persist_ingest
  persist_ingest-idempotent cfg g p faces again now later s room r g' e taken =
      let o = persist_ingest-Persisted fl us cfg g p faces now s room in
      let effect : Effect fl us g p r.status r.image_id g' =
        subst (λ x. Effect fl us g p x.0.status x.0.image_id x.1) (some-inj (sym o.returns ∙ e))
          o.effect in
      persist_sha-known cfg g' p again later r.image_id (find_by_sha fl us g' p.sha) (elim taken [
        | inl st ↦ subst (λ x. Effect fl us g p x r.image_id g') st effect
        | inr up ↦ subst (λ x. Effect fl us g p x r.image_id g') up effect
      ])

  module _ (cfg : Config fl.Float) (g : G fl us) (p : Picture)
      (faces : List (DetectedFace fl.Float)) (now : ℕ) (c : IngestCheckResult)
      (settled : c.process_required ≡ false) where
    not_open : some no_check ≡ some c → ⊥
    not_open e =
        let open_ : true ≡ c.process_required = ap (λ x. x.process_required) (some-inj e) in
        absurd cc

    image-agrees :
        (o : Option ImageSlot)
        → (o >>= λ im.
            if ltb (im.width * im.height) (p.cols * p.rows)
            then some no_check
            else some (checked_as fl us im by_perceptual))
          ≡ some c
        → IsRepeat (o >>= λ im. replace_if_larger fl us cfg g im p faces now) c.image_id g
    unfolding replace_if_larger duplicate_of checked_as
    image-agrees none e = absurd cc
    image-agrees (some im) e = elim (Bool-cases (ltb (im.width * im.height) (p.cols * p.rows))) [
      | inl larger ↦ absurd (not_open (sym (rw larger refl) ∙ e))
      | inr smaller ↦
          let known : (leb (p.cols * p.rows) (im.width * im.height) || none_of faces) ≡ true =
            ground (arith, smaller) in
          let same : some (checked_as fl us im by_perceptual) ≡ some c =
            sym (rw smaller refl) ∙ e in
          rw known (refl, ap (λ x. x.image_id) (some-inj same), refl)
    ]

    check_dup-agrees :
        (o : Option DedupHit)
        → check_dup fl us g p.cols p.rows o ≡ some c
        → IsRepeat (persist_dup fl us cfg g p faces now o) c.image_id g
    unfolding check_dup persist_dup
    check_dup-agrees none e = absurd (not_open e)
    check_dup-agrees (some d) e = elim (Bool-cases d.hard) [
      | inl hard ↦
          let either : (d.hard || confirm_soft fl us g d.image_id faces) ≡ true =
            ground (arith, hard) in
          rw either (image-agrees (image fl us g (pos d.image_id)) (sym (rw hard refl) ∙ e))
      | inr soft ↦ absurd (not_open (sym (rw soft refl) ∙ e))
    ]

    check_sha-agrees :
        (o : Option ImageSlot)
        → check_sha fl us cfg g p.phash p.dhash p.cols p.rows o ≡ some c
        → IsRepeat (persist_sha fl us cfg g p faces now o) c.image_id g
    unfolding check_sha persist_sha checked_as duplicate_of
    check_sha-agrees (some hit) e = (refl, ap (λ x. x.image_id) (some-inj e), refl)
    check_sha-agrees none e = go cfg.dedup_perceptual e
      where
        go :
            (on : Bool)
            → (if not on || p.cols == 0 || p.rows == 0
                then some no_check
                else check_dup fl us g p.cols p.rows (find_perceptual fl us cfg g p.phash p.dhash))
              ≡ some c
            → IsRepeat
                (persist_dup fl us cfg g p faces now
                  (if on then find_perceptual fl us cfg g p.phash p.dhash else none))
                c.image_id
                g
        go false e = absurd (not_open e)
        go true e = elim (Bool-cases (p.cols == 0 || p.rows == 0)) [
          | inl flat ↦ absurd (not_open (sym (rw flat refl) ∙ e))
          | inr solid ↦
              check_dup-agrees (find_perceptual fl us cfg g p.phash p.dhash)
                (sym (rw solid refl) ∙ e)
        ]

    -- If the check of a picture says that it need not be processed, taking the picture in answers that
    -- it is a duplicate of the image that the check named, whatever faces are found, and changes
    -- nothing.
    pub check_ingest-agrees :
        check_ingest fl us cfg g p.sha p.phash p.dhash p.cols p.rows ≡ some c
        → IsRepeat (persist_ingest fl us cfg g p faces now) c.image_id g
    unfolding check_ingest persist_ingest
    check_ingest-agrees e = check_sha-agrees (find_by_sha fl us g p.sha) e
