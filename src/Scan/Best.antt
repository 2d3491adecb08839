-- ===== src/Scan/Best.antt =====
-- The exact scan of src/index/exact_scan.cpp returns the best rows, the best one first, if the scores
-- are numbers.
use native.Mathlib.Decide.{ℕ_discrete}
use hvax.Prelude.{
  ℕ, zero, suc, ◌<◌, ◌≡◌, refl, Bool, true, false, ◌||◌, ◌⊎◌, inl, inr, List, [], ◌∷◌, ltb, ◌==◌,
  length, All, arith, Bool-cases,
}
use hvax.Floats.{Floats}
use hvax.Scan.{
  ScanHit, push_hit, replace_top, offer, scan, insert_hit, sort_hits, emptied, topk_generic,
}
use hvax.Scan.Sound.{
  count_row, push_hit-All, emptied-All, sort_hits-All, output-All, count_row-push_hit,
  count_row-output, length-push_hit, length-output, IsHit, scan-IsHit, scan-bounded,
}

-- The comparisons of floating point, where `num x` says that x is a number.
pub record IsOrder (fl : Floats) (num : fl.Float → Bool) : Type 0 where
  pub le_of_lt : {x y : fl.Float} → fl.lt x y ≡ true → fl.le x y ≡ true
  pub le_of_not_lt :
      {x y : fl.Float} → num x ≡ true → num y ≡ true → fl.lt x y ≡ false → fl.le y x ≡ true
  pub le_trans : {x y z : fl.Float} → fl.le x y ≡ true → fl.le y z ≡ true → fl.le x z ≡ true

module _ (fl : Floats) (num : fl.Float → Bool) (o : IsOrder fl num) where
  -- No entry is under `s`.
  abbrev pub AtLeast : fl.Float → List (ScanHit fl) → Type 0
  AtLeast s h = All (λ y. fl.le s y.score ≡ true) h

  abbrev AtMost : fl.Float → List (ScanHit fl) → Type 0
  AtMost s h = All (λ y. fl.le y.score s ≡ true) h

  abbrev Ascending : List (ScanHit fl) → Type 0
  Ascending [] = Unit
  Ascending (x ∷ xs) = AtLeast x.score xs × Ascending xs

  abbrev pub Descending : List (ScanHit fl) → Type 0
  Descending [] = Unit
  Descending (x ∷ xs) = AtMost x.score xs × Descending xs

  abbrev Numbers : List (ScanHit fl) → Type 0
  Numbers h = All (λ y. num y.score ≡ true) h

  AtLeast-trans :
      (s t : fl.Float) (h : List (ScanHit fl)) → fl.le s t ≡ true → AtLeast t h → AtLeast s h
  AtLeast-trans s t [] le a = tt
  AtLeast-trans s t (x ∷ h) le a = (o.le_trans le a.0, AtLeast-trans s t h le a.1)

  AtMost-trans :
      (s t : fl.Float) (h : List (ScanHit fl)) → fl.le s t ≡ true → AtMost s h → AtMost t h
  AtMost-trans s t [] le a = tt
  AtMost-trans s t (x ∷ h) le a = (o.le_trans a.0 le, AtMost-trans s t h le a.1)

  push_hit-Ascending :
      (x : ScanHit fl) (h : List (ScanHit fl))
      → num x.score ≡ true
      → Numbers h
      → Ascending h
      → Ascending (push_hit fl x h)
  unfolding push_hit
  push_hit-Ascending x [] nx n a = (tt, tt)
  push_hit-Ascending x (y ∷ ys) nx n a = elim (Bool-cases (fl.lt y.score x.score)) [
    | inl below ↦ rw below (
      push_hit-All fl (λ z. fl.le y.score z.score ≡ true) x ys (o.le_of_lt below) a.0,
      push_hit-Ascending x ys nx n.1 a.1,
    )
    | inr above ↦
        let le = o.le_of_not_lt n.0 nx above in
        rw above ((le, AtLeast-trans x.score y.score ys le a.0), a)
  ]

  replace_top-Ascending :
      (x : ScanHit fl) (h : List (ScanHit fl))
      → num x.score ≡ true
      → Numbers h
      → Ascending h
      → Ascending (replace_top fl x h)
  unfolding replace_top
  replace_top-Ascending x [] nx n a = tt
  replace_top-Ascending x (t ∷ h) nx n a = elim (Bool-cases (fl.lt t.score x.score)) [
    | inl beats ↦ rw beats (push_hit-Ascending x h nx n.1 a.1)
    | inr other ↦ rw other a
  ]

  insert_hit-Descending :
      (x : ScanHit fl) (h : List (ScanHit fl))
      → num x.score ≡ true
      → Numbers h
      → Descending h
      → Descending (insert_hit fl x h)
  unfolding insert_hit
  insert_hit-Descending x [] nx n a = (tt, tt)
  insert_hit-Descending x (y ∷ ys) nx n a = elim (Bool-cases (fl.lt x.score y.score)) [
    | inl below ↦ rw below (
      insert_hit-AtMost x ys y.score (o.le_of_lt below) a.0,
      insert_hit-Descending x ys nx n.1 a.1,
    )
    | inr above ↦
        let le = o.le_of_not_lt nx n.0 above in
        rw above ((le, AtMost-trans y.score x.score ys le a.0), a)
  ]
    where
      insert_hit-AtMost :
          (x : ScanHit fl) (h : List (ScanHit fl)) (s : fl.Float)
          → fl.le x.score s ≡ true
          → AtMost s h
          → AtMost s (insert_hit fl x h)
      insert_hit-AtMost x [] s le a = (le, tt)
      insert_hit-AtMost x (y ∷ ys) s le a = elim (Bool-cases (fl.lt x.score y.score)) [
        | inl below ↦ rw below (a.0, insert_hit-AtMost x ys s le a.1)
        | inr above ↦ rw above (le, a)
      ]

  module _ (k : ℕ) (skipped : ℕ → Bool) (min_score : fl.Float) (score_of : ℕ → fl.Float)
      (numbers : (i : ℕ) → num (score_of i) ≡ true) where
    -- The queue holds `r`, or is full of rows that are at least as good.
    abbrev Kept : List (ScanHit fl) → ℕ → Type 0
    Kept h r = (0 < count_row fl r h) ⊎ ((length h ≡ k) × AtLeast (score_of r) h)

    hits-Numbers :
        (n : ℕ) (h : List (ScanHit fl))
        → All (IsHit fl k skipped min_score score_of n) h
        → Numbers h
    hits-Numbers n [] a = tt
    hits-Numbers n (x ∷ h) a = (rw a.0.score (numbers x.row), hits-Numbers n h a.1)

    scan-Ascending : (n : ℕ) → Ascending (scan fl k skipped min_score score_of n)
    unfolding scan offer
    scan-Ascending zero = tt
    scan-Ascending (suc n) =
        let h = scan fl k skipped min_score score_of n in
        let x : ScanHit fl = record { row = n; score = score_of n } in
        let ns = hits-Numbers n h (scan-IsHit fl k skipped min_score score_of n) in
        elim (Bool-cases (skipped n || fl.lt (score_of n) min_score)) [
          | inl out ↦ rw out (scan-Ascending n)
          | inr in_ ↦ elim (Bool-cases (ltb (length h) k)) [
            | inl room ↦ rw (in_, room) (push_hit-Ascending x h (numbers n) ns (scan-Ascending n))
            | inr full ↦
                rw (in_, full) (replace_top-Ascending x h (numbers n) ns (scan-Ascending n))
          ]
        ]

    replace_top-new :
        (x : ScanHit fl) (h : List (ScanHit fl))
        → x.score ≡ score_of x.row
        → num x.score ≡ true
        → Numbers h
        → Ascending h
        → length h ≡ k
        → Kept (replace_top fl x h) x.row
    unfolding replace_top
    replace_top-new x [] own nx n a full = inr (full, tt)
    replace_top-new x (t ∷ h) own nx n a full = elim (Bool-cases (fl.lt t.score x.score)) [
      | inl beats ↦ rw beats (inl (ground (arith, count_row-push_hit fl x.row x h)))
      | inr other ↦
          let le : fl.le (score_of x.row) t.score ≡ true =
            rw (← own) (o.le_of_not_lt n.0 nx other) in
          rw other (inr (full, (le, AtLeast-trans (score_of x.row) t.score h le a.0)))
    ]

    replace_top-old :
        (n : ℕ) (x : ScanHit fl) (h : List (ScanHit fl)) (r : ℕ)
        → All (IsHit fl k skipped min_score score_of n) h
        → Ascending h
        → length h ≡ k
        → Kept h r
        → Kept (replace_top fl x h) r
    unfolding replace_top
    replace_top-old n x [] r hits a full kept = kept
    replace_top-old n x (t ∷ h) r hits a full kept = elim (Bool-cases (fl.lt t.score x.score)) [
      | inl beats ↦ rw beats (pushed (o.le_of_lt beats) kept)
      | inr other ↦ rw other kept
    ]
      where
        all :
            (s : fl.Float)
            → fl.le s x.score ≡ true
            → AtLeast s h
            → (length (push_hit fl x h) ≡ k) × AtLeast s (push_hit fl x h)
        all s le b = (
          omega (arith, length-push_hit fl x h, full),
          push_hit-All fl (λ y. fl.le s y.score ≡ true) x h le b,
        )

        pushed : fl.le t.score x.score ≡ true → Kept (t ∷ h) r → Kept (push_hit fl x h) r
        pushed le (inr (e, b)) = inr (all (score_of r) (o.le_trans b.0 le) b.1)
        pushed le (inl there) = elim (ℕ_discrete t.row r) [
          | yes same ↦
              inr (
                all (score_of r) (rw (← same, ← hits.0.score) le) (rw (← same, ← hits.0.score) a.0))
          | no other ↦ inl (ground (arith, count_row-push_hit fl r x h, there, other))
        ]

    scan-Kept :
        (n r : ℕ)
        → r < n
        → skipped r ≡ false
        → fl.lt (score_of r) min_score ≡ false
        → Kept (scan fl k skipped min_score score_of n) r
    unfolding scan offer
    scan-Kept zero r below free high = ground (arith, below)
    scan-Kept (suc n) r below free high =
        let h = scan fl k skipped min_score score_of n in
        let x : ScanHit fl = record { row = n; score = score_of n } in
        let hits = scan-IsHit fl k skipped min_score score_of n in
        let ns = hits-Numbers n h hits in
        let asc = scan-Ascending n in
        elim (Bool-cases (skipped n || fl.lt (score_of n) min_score)) [
          | inl out ↦ rw out (elim (ℕ_discrete r n) [
            | yes same ↦ ground (arith, out, same, free, high)
            | no other ↦ scan-Kept n r (omega (arith, below, other)) free high
          ])
          | inr in_ ↦ elim (Bool-cases (ltb (length h) k)) [
            | inl room ↦
                rw (in_, room)
                  (elim (ℕ_discrete r n) [
                    | yes same ↦ inl (ground (arith, count_row-push_hit fl r x h, same))
                    | no other ↦ elim (scan-Kept n r (omega (arith, below, other)) free high) [
                      | inl there ↦ inl (ground (arith, count_row-push_hit fl r x h, there))
                      | inr full ↦ ground (arith, full.0, room)
                    ]
                  ])
            | inr whole ↦
                let full : length h ≡ k =
                  ground (arith, whole, scan-bounded fl k skipped min_score score_of n) in
                rw (in_, whole)
                  (elim (ℕ_discrete r n) [
                    | yes same ↦ rw same (replace_top-new x h refl (numbers n) ns asc full)
                    | no other ↦
                        replace_top-old n x h r hits asc full
                          (scan-Kept n r (omega (arith, below, other)) free high)
                  ])
          ]
        ]

    sort_hits-Descending : (h : List (ScanHit fl)) → Numbers h → Descending (sort_hits fl h)
    unfolding sort_hits
    sort_hits-Descending [] n = tt
    sort_hits-Descending (x ∷ h) n =
        insert_hit-Descending x (sort_hits fl h) n.0
          (sort_hits-All fl (λ y. num y.score ≡ true) h n.1) (sort_hits-Descending h n.1)

    -- A row that may be returned is, or `k` rows are returned and all of them score at least as high;
    -- the rows stand by falling score.
    pub topk_generic_best :
        (n : ℕ)
        → let out = topk_generic fl n k skipped min_score score_of in
          Descending out
          × ((r : ℕ)
              → r < n
              → skipped r ≡ false
              → fl.lt (score_of r) min_score ≡ false
              → (0 < count_row fl r out) ⊎ ((length out ≡ k) × AtLeast (score_of r) out))
    unfolding topk_generic
    topk_generic_best n =
        let h = scan fl k skipped min_score score_of n in
        let ns = hits-Numbers n h (scan-IsHit fl k skipped min_score score_of n) in
        elim (Bool-cases (k == 0 || n == 0)) [
          | inl empty ↦ rw empty (tt, λ r below free high. inr (ground (arith, empty, below), tt))
          | inr some ↦ rw some (
            sort_hits-Descending (emptied fl h) (emptied-All fl (λ y. num y.score ≡ true) h ns),
            λ r below free high. output h r (scan-Kept n r below free high),
          )
        ]
      where
        output : (h : List (ScanHit fl)) (r : ℕ) → Kept h r → Kept (sort_hits fl (emptied fl h)) r
        output h r (inl there) = inl (ground (arith, count_row-output fl r h, there))
        output h r (inr full) = inr (
          ground (arith, length-output fl h, full.0),
          output-All fl (λ y. fl.le (score_of r) y.score ≡ true) h full.1,
        )
