-- ===== src/Gallery/Recluster/Claims.antt =====
-- recluster of src/store/identity.cpp: which identities the clusters get.
use hvax.Prelude.{
  ℕ, zero, suc, ◌+◌, ◌≤◌, ◌<◌, ◌≡◌, ◌≢◌, ◌⊎◌, refl, Bool, true, false, not, ◌&&◌, ◌||◌, List, [],
  ◌∷◌, ltb, leb, ◌==◌, if◌then◌else◌, put, count, All, arith, Bool-cases, inl, inr,
}
use hvax.Gallery.Recluster.{Snapshot, is_pinned}
use hvax.Gallery.Recluster.Merge.{rows_of, pinned_ref}
use hvax.Gallery.Recluster.Stable.{refs_among, best_ref, iota, Claims, claim_pinned, claim}

-- The best reference is not claimed, and within the bound of the list.
pub best_ref_lem :
    (claimed refs : List ℕ) (best best_n : ℕ) (xs : List ℕ) (bound : ℕ)
    → best ≤ bound
    → count best claimed ≡ 0
    → ((x : ℕ) → 0 < count x xs → x ≤ bound)
    → (best_ref claimed refs best best_n xs ≤ bound)
      × (count (best_ref claimed refs best best_n xs) claimed ≡ 0)
unfolding best_ref
best_ref_lem claimed refs best best_n [] bound h k a = (h, k)
best_ref_lem claimed refs best best_n (x ∷ xs) bound h k a =
    best_ref_lem claimed refs (if better then x else best) (if better then count x refs else best_n)
      xs bound (inside better) (free better refl) (λ y l. a y (ground (arith, l)))
  where
    better : Bool
    better =
        not (ltb 0 (count x claimed))
        && (ltb best_n (count x refs) || count x refs == best_n && ltb x best)

    inside : (b : Bool) → (if b then x else best) ≤ bound
    inside true = a x (ground arith)
    inside false = h

    free : (b : Bool) → better ≡ b → count (if b then x else best) claimed ≡ 0
    free true e = ground (arith, e)
    free false e = k

pub refs_among_lem :
    (s : Snapshot) (bound : ℕ) (rows : List ℕ)
    → All (λ r. s.refs r ≤ bound) rows
    → (x : ℕ) → 0 < count x (refs_among s rows)
    → x ≤ bound
unfolding refs_among
refs_among_lem s bound [] a x h = ground (arith, h)
refs_among_lem s bound (r ∷ rows) a x h = ground (arith, h, a.0, refs_among_lem s bound rows a.1 x)

pub count-iota :
    (i left f : ℕ) → count f (iota i left) ≡ (if leb i f && ltb f (i + left) then 1 else 0)
unfolding iota
count-iota i zero f = ground arith
count-iota i (suc left) f = ground (arith, count-iota (i + 1) left f)

module _ (s : Snapshot) (identities : ℕ) (tagged : List (ℕ × ℕ)) where
  abbrev pinned_of : ℕ → ℕ
  pinned_of f = pinned_ref s 0 (rows_of f tagged)

  -- A reference is 0, or claimed, or new; two clusters have the same only if both are pinned.
  pub record IsClaims (st : Claims) : Type 0 where
    pub known :
        (f : ℕ)
        → st.fid.at f ≢ 0
        → (0 < count (st.fid.at f) st.claimed)
          ⊎ ((identities < st.fid.at f) × (st.fid.at f < st.next_ref))
    pub old : (x : ℕ) → 0 < count x st.claimed → (0 < x) × (x ≤ identities)
    pub next : identities < st.next_ref
    pub apart :
        (f f' : ℕ)
        → f ≢ f'
        → st.fid.at f ≢ 0
        → st.fid.at f ≡ st.fid.at f'
        → (0 < pinned_of f) × (0 < pinned_of f')

  pub claim-IsClaims :
      (st : Claims) (f best : ℕ)
      → IsClaims st
      → st.fid.at f ≡ 0
      → best ≤ identities
      → count best st.claimed ≡ 0
      → IsClaims (claim st f best)
  unfolding claim
  claim-IsClaims st f zero c z h k = record {
    known = λ f' n. ground (arith, c.known f', c.next, n);
    old = c.old;
    next = omega (arith, c.next);
    apart = λ a b ne n e. ground (
      arith,
      c.apart a b ne,
      c.known a,
      c.known b,
      c.old (st.fid.at a),
      c.old (st.fid.at b),
      c.next,
      n,
      e,
      ne,
    );
  }
  claim-IsClaims st f (suc id) c z h k = record {
    known = λ f' n. ground (arith, c.known f', n);
    old = λ x h'. ground (arith, c.old x, h', h);
    next = c.next;
    apart = λ a b ne n e. ground (arith, c.apart a b ne, c.known a, c.known b, h, k, n, e, ne);
  }

  -- After the pinned clusters have their references.
  pub record IsPinnedClaims (st : Claims) : Type 0 where
    pub same :
        (f : ℕ)
        → st.fid.at f ≢ 0
        → (st.fid.at f ≡ pinned_of f) × (0 < count (st.fid.at f) st.claimed)
    pub old : (x : ℕ) → 0 < count x st.claimed → (0 < x) × (x ≤ identities)
    pub next : identities < st.next_ref

  pub IsPinnedClaims-IsClaims : (st : Claims) → IsPinnedClaims st → IsClaims st
  IsPinnedClaims-IsClaims st p = record {
    known = λ f n. inl (p.same f n).1;
    old = p.old;
    next = p.next;
    apart = λ f f' ne n e. ground (arith, p.same f, p.same f', n, e);
  }

  pinned_ref_lem :
      s.pinned_identity.size ≤ identities
      → (ref : ℕ) (rows : List ℕ) → ref ≤ identities
      → pinned_ref s ref rows ≤ identities
  unfolding pinned_ref
  pinned_ref_lem small ref [] h = h
  pinned_ref_lem small ref (r ∷ rows) h =
      pinned_ref_lem small (if is_pinned s (s.refs r) then s.refs r else ref) rows
        (pinned_step (s.refs r))
    where
      pinned_step : (x : ℕ) → (if is_pinned s x then x else ref) ≤ identities
      pinned_step zero = unfold is_pinned in h
      pinned_step (suc id) = unfold is_pinned in ground (arith, h, small)

  pub claim_pinned-IsPinnedClaims :
      s.pinned_identity.size ≤ identities
      → (order : List ℕ) (st : Claims) → IsPinnedClaims st
      → IsPinnedClaims (claim_pinned s tagged order st)
  unfolding claim_pinned
  claim_pinned-IsPinnedClaims small [] st p = p
  claim_pinned-IsPinnedClaims small (f ∷ order) st p = elim (Bool-cases (pinned_of f == 0)) [
    | inl free ↦ rw free (claim_pinned-IsPinnedClaims small order st p)
    | inr ref ↦ rw ref (
        claim_pinned-IsPinnedClaims small order
          (record st { fid = put st.fid f (pinned_of f); claimed = pinned_of f ∷ st.claimed })
          (record {
            same = λ f' n. ground (arith, p.same f', n);
            old = λ x h.
                ground
                  (arith, p.old x, h, ref, pinned_ref_lem small 0 (rows_of f tagged) (omega arith));
            next = p.next;
          }))
  ]
