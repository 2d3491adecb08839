-- ===== src/Scan/Sound.antt =====
-- What the exact scan of src/index/exact_scan.cpp returns: rows it was allowed to, each once, at most k.
use hvax.Prelude.{
  ℕ, zero, suc, ◌+◌, ◌≤◌, ◌<◌, ◌≡◌, refl, Bool, false, ◌||◌, List, [], ◌∷◌, ◌++◌, ltb, ◌==◌,
  if◌then◌else◌, length, length-append, append-All, All, arith, Bool-cases, inl, inr,
}
use hvax.Floats.{Floats}
use hvax.Scan.{
  ScanHit, push_hit, replace_top, offer, scan, insert_hit, sort_hits, emptied, topk_generic,
}

module _ (fl : Floats) where
  -- How often a row stands among hits.
  abbrev pub count_row : ℕ → List (ScanHit fl) → ℕ
  count_row r [] = 0
  count_row r (x ∷ xs) = (if x.row == r then 1 else 0) + count_row r xs

  module _ (P : ScanHit fl → Type 0) where
    pub push_hit-All :
        (x : ScanHit fl) (h : List (ScanHit fl)) → P x → All P h → All P (push_hit fl x h)
    unfolding push_hit
    push_hit-All x [] p a = (p, tt)
    push_hit-All x (y ∷ ys) p a = elim (Bool-cases (fl.lt y.score x.score)) [
      | inl below ↦ rw below (a.0, push_hit-All x ys p a.1)
      | inr above ↦ rw above (p, a)
    ]

    replace_top-All :
        (x : ScanHit fl) (h : List (ScanHit fl)) → P x → All P h → All P (replace_top fl x h)
    unfolding replace_top
    replace_top-All x [] p a = tt
    replace_top-All x (t ∷ h) p a = elim (Bool-cases (fl.lt t.score x.score)) [
      | inl beats ↦ rw beats (push_hit-All x h p a.1)
      | inr other ↦ rw other a
    ]

    pub emptied-All : (h : List (ScanHit fl)) → All P h → All P (emptied fl h)
    unfolding emptied
    emptied-All [] a = tt
    emptied-All (x ∷ h) a = append-All P (emptied fl h) (x ∷ []) (emptied-All h a.1) (a.0, tt)

    insert_hit-All :
        (x : ScanHit fl) (h : List (ScanHit fl)) → P x → All P h → All P (insert_hit fl x h)
    unfolding insert_hit
    insert_hit-All x [] p a = (p, tt)
    insert_hit-All x (y ∷ ys) p a = elim (Bool-cases (fl.lt x.score y.score)) [
      | inl below ↦ rw below (a.0, insert_hit-All x ys p a.1)
      | inr above ↦ rw above (p, a)
    ]

    pub sort_hits-All : (h : List (ScanHit fl)) → All P h → All P (sort_hits fl h)
    unfolding sort_hits
    sort_hits-All [] a = tt
    sort_hits-All (x ∷ h) a = insert_hit-All x (sort_hits fl h) a.0 (sort_hits-All h a.1)

    -- The hits that are returned have what all the entries of the queue have.
    pub output-All : (h : List (ScanHit fl)) → All P h → All P (sort_hits fl (emptied fl h))
    output-All h a = sort_hits-All (emptied fl h) (emptied-All h a)

  module _ (r : ℕ) where
    pub count_row-push_hit :
        (x : ScanHit fl) (h : List (ScanHit fl))
        → count_row r (push_hit fl x h) ≡ (if x.row == r then 1 else 0) + count_row r h
    unfolding push_hit
    count_row-push_hit x [] = ground arith
    count_row-push_hit x (y ∷ ys) = ground (arith, count_row-push_hit x ys)

    count_row-append :
        (xs ys : List (ScanHit fl)) → count_row r (xs ++ ys) ≡ count_row r xs + count_row r ys
    count_row-append [] ys = ground arith
    count_row-append (x ∷ xs) ys = ground (arith, count_row-append xs ys)

    count_row-emptied : (h : List (ScanHit fl)) → count_row r (emptied fl h) ≡ count_row r h
    unfolding emptied
    count_row-emptied [] = refl
    count_row-emptied (x ∷ h) =
        ground (arith, count_row-emptied h, count_row-append (emptied fl h) (x ∷ []))

    count_row-insert_hit :
        (x : ScanHit fl) (h : List (ScanHit fl))
        → count_row r (insert_hit fl x h) ≡ (if x.row == r then 1 else 0) + count_row r h
    unfolding insert_hit
    count_row-insert_hit x [] = ground arith
    count_row-insert_hit x (y ∷ ys) = ground (arith, count_row-insert_hit x ys)

    pub count_row-sort_hits : (h : List (ScanHit fl)) → count_row r (sort_hits fl h) ≡ count_row r h
    unfolding sort_hits
    count_row-sort_hits [] = refl
    count_row-sort_hits (x ∷ h) =
        ground (arith, count_row-sort_hits h, count_row-insert_hit x (sort_hits fl h))

    pub count_row-output :
        (h : List (ScanHit fl)) → count_row r (sort_hits fl (emptied fl h)) ≡ count_row r h
    count_row-output h = ground (arith, count_row-sort_hits (emptied fl h), count_row-emptied h)

  pub length-push_hit :
      (x : ScanHit fl) (h : List (ScanHit fl)) → length (push_hit fl x h) ≡ suc (length h)
  unfolding push_hit
  length-push_hit x [] = refl
  length-push_hit x (y ∷ ys) = ground (arith, length-push_hit x ys)

  length-emptied : (h : List (ScanHit fl)) → length (emptied fl h) ≡ length h
  unfolding emptied
  length-emptied [] = refl
  length-emptied (x ∷ h) = omega (arith, length-emptied h, length-append (emptied fl h) (x ∷ []))

  length-insert_hit :
      (x : ScanHit fl) (h : List (ScanHit fl)) → length (insert_hit fl x h) ≡ suc (length h)
  unfolding insert_hit
  length-insert_hit x [] = refl
  length-insert_hit x (y ∷ ys) = ground (arith, length-insert_hit x ys)

  pub length-sort_hits : (h : List (ScanHit fl)) → length (sort_hits fl h) ≡ length h
  unfolding sort_hits
  length-sort_hits [] = refl
  length-sort_hits (x ∷ h) = omega (arith, length-sort_hits h, length-insert_hit x (sort_hits fl h))

  pub length-output : (h : List (ScanHit fl)) → length (sort_hits fl (emptied fl h)) ≡ length h
  length-output h = omega (arith, length-sort_hits (emptied fl h), length-emptied h)

  module _ (k : ℕ) (skipped : ℕ → Bool) (min_score : fl.Float) (score_of : ℕ → fl.Float) where
    -- A hit that the scan of the rows below `n` may return.
    pub record IsHit (n : ℕ) (x : ScanHit fl) : Type 0 where
      pub row : x.row < n
      pub allowed : skipped x.row ≡ false
      pub score : x.score ≡ score_of x.row
      pub floor : fl.lt x.score min_score ≡ false

    weaken : (n : ℕ) (h : List (ScanHit fl)) → All (IsHit n) h → All (IsHit (suc n)) h
    weaken n [] a = tt
    weaken n (x ∷ h) a = (
      record {
        row = omega (arith, a.0.row);
        allowed = a.0.allowed;
        score = a.0.score;
        floor = a.0.floor;
      },
      weaken n h a.1,
    )

    pub scan-IsHit : (n : ℕ) → All (IsHit n) (scan fl k skipped min_score score_of n)
    unfolding scan offer
    scan-IsHit zero = tt
    scan-IsHit (suc n) =
        let h = scan fl k skipped min_score score_of n in
        let x : ScanHit fl = record { row = n; score = score_of n } in
        let rest = weaken n h (scan-IsHit n) in
        elim (Bool-cases (skipped n || fl.lt (score_of n) min_score)) [
          | inl out ↦ rw out rest
          | inr in_ ↦
              let p : IsHit (suc n) x = record {
                row = omega arith;
                allowed = ground (arith, in_);
                score = refl;
                floor = ground (arith, in_);
              } in
              elim (Bool-cases (ltb (length h) k)) [
                | inl room ↦ rw (in_, room) (push_hit-All (IsHit (suc n)) x h p rest)
                | inr full ↦ rw (in_, full) (replace_top-All (IsHit (suc n)) x h p rest)
              ]
        ]

    count_row-none : (n r : ℕ) (h : List (ScanHit fl)) → All (IsHit n) h → n ≤ r → count_row r h ≡ 0
    count_row-none n r [] a le = refl
    count_row-none n r (x ∷ h) a le = ground (arith, a.0.row, count_row-none n r h a.1 le, le)

    count_row-replace_top :
        (x : ScanHit fl) (h : List (ScanHit fl)) (r : ℕ)
        → count_row r (replace_top fl x h) ≤ (if x.row == r then 1 else 0) + count_row r h
    unfolding replace_top
    count_row-replace_top x [] r = ground arith
    count_row-replace_top x (t ∷ h) r = ground (arith, count_row-push_hit r x h)

    pub scan-distinct : (n r : ℕ) → count_row r (scan fl k skipped min_score score_of n) ≤ 1
    unfolding scan offer
    scan-distinct zero r = ground arith
    scan-distinct (suc n) r =
        let h = scan fl k skipped min_score score_of n in
        let x : ScanHit fl = record { row = n; score = score_of n } in
        ground (
          arith,
          scan-distinct n r,
          count_row-none n r h (scan-IsHit n),
          count_row-push_hit r x h,
          count_row-replace_top x h r,
        )

    length-replace_top :
        (x : ScanHit fl) (h : List (ScanHit fl)) → length (replace_top fl x h) ≡ length h
    unfolding replace_top
    length-replace_top x [] = refl
    length-replace_top x (t ∷ h) = ground (arith, length-push_hit x h)

    pub scan-bounded : (n : ℕ) → length (scan fl k skipped min_score score_of n) ≤ k
    unfolding scan offer
    scan-bounded zero = omega arith
    scan-bounded (suc n) =
        let h = scan fl k skipped min_score score_of n in
        let x : ScanHit fl = record { row = n; score = score_of n } in
        ground (arith, scan-bounded n, length-push_hit x h, length-replace_top x h)

    -- The rows returned are below `n`, not skipped, with their own score, which is not under the
    -- floor. There are at most `k`, and no row is returned twice.
    pub topk_generic_sound :
        (n : ℕ)
        → let out = topk_generic fl n k skipped min_score score_of in
          All (IsHit n) out × (length out ≤ k) × ((r : ℕ) → count_row r out ≤ 1)
    unfolding topk_generic
    topk_generic_sound n =
        let h = scan fl k skipped min_score score_of n in
        elim (Bool-cases (k == 0 || n == 0)) [
          | inl empty ↦ rw empty (tt, omega arith, λ r. omega arith)
          | inr some ↦ rw some (
            output-All (IsHit n) h (scan-IsHit n),
            omega (arith, length-output h, scan-bounded n),
            λ r. omega (arith, count_row-output r h, scan-distinct n r),
          )
        ]
