-- ===== src/Gallery/Shared/Pairs.antt =====
-- The runs of sorted pairs in the loop of cooccurring of src/store/identity.cpp.
use hvax.Prelude.{
  ℕ, ◌+◌, ◌≤◌, ◌<◌, ◌≡◌, refl, ap, ◌∙◌, true, false, List, [], ◌∷◌, ◌==◌, if◌then◌else◌, All, arith,
  Bool-cases, inl, inr,
}
use hvax.Prelude.SortBy.Keep.{All-imp}
use hvax.Prelude.SortBy.Unique.{IsOrder, Rising, IsRising, count_by}
use hvax.Types.{u32}
use hvax.Gallery.Shared.{CooccurrenceEntry, pair_before, pair_same, runs_after, runs}

pub pair_before-IsOrder : IsOrder pair_before pair_same
unfolding pair_before pair_same
pair_before-IsOrder = record {
  trans = λ a b c h k. ground (arith, h, k);
  step = λ a b c h k. ground (arith, h, k);
  total = λ a b h k. ground (arith, h, k);
  asym = λ a b h. ground (arith, h);
  strict = λ a b h. ground (arith, h);
}

abbrev pub Rises : ℕ × ℕ → List (ℕ × ℕ) → Type 0
Rises = Rising pair_before pair_same pair_before-IsOrder

-- How many pairs have the identity `j`.
abbrev pub firsts : ℕ → List (ℕ × ℕ) → ℕ
firsts j = count_by (λ p. p.0 == j)

firsts-above : (j : ℕ) (x : ℕ × ℕ) (ps : List (ℕ × ℕ)) → Rises x ps → j < x.0 → firsts j ps ≡ 0
unfolding pair_before
firsts-above j x [] r h = refl
firsts-above j x (p ∷ ps) r h = ground (arith, r.0, h, firsts-above j p ps r.1)

-- An entry has the number of its pairs, `n` of those of `o` being behind.
abbrev Tallied : ℕ → ℕ → List (ℕ × ℕ) → CooccurrenceEntry → Type 0
Tallied o n ps e =
    (e.shared_images ≡ u32 ((if o == e.identity_id then n else 0) + firsts e.identity_id ps))
    × (o ≤ e.identity_id)

same_run :
    (o n : ℕ) (p : ℕ × ℕ) (ps : List (ℕ × ℕ))
    → p.0 ≡ o
    → (e : CooccurrenceEntry) → Tallied o (n + 1) ps e
    → Tallied o n (p ∷ ps) e
same_run o n p ps h e t = (t.0 ∙ ap u32 (ground (arith, h)), t.1)

next_run :
    (o n : ℕ) (p : ℕ × ℕ) (ps : List (ℕ × ℕ))
    → o < p.0
    → (e : CooccurrenceEntry) → Tallied p.0 1 ps e
    → Tallied o n (p ∷ ps) e
next_run o n p ps h e t = (t.0 ∙ ap u32 (ground (arith, h, t.1)), omega (arith, h, t.1))

above : (o : ℕ) (x p : ℕ × ℕ) → x.0 ≡ o → pair_before x p ≡ true → (p.0 == o) ≡ false → o < p.0
unfolding pair_before
above o x p e h k = ground (arith, e, h, k)

runs_after-Tallied :
    (o n : ℕ) (x : ℕ × ℕ) (ps : List (ℕ × ℕ))
    → x.0 ≡ o
    → Rises x ps
    → All (Tallied o n ps) (runs_after o n ps)
unfolding runs_after
runs_after-Tallied o n x [] e r = ((ground arith, omega arith), tt)
runs_after-Tallied o n x (p ∷ ps) e r = elim (Bool-cases (p.0 == o)) [
  | inl same ↦ rw same (
      All-imp (Tallied o (n + 1) ps) (Tallied o n (p ∷ ps))
        (same_run o n p ps (ground (arith, same))) (runs_after o (n + 1) ps)
        (runs_after-Tallied o (n + 1) p ps (ground (arith, same)) r.1))
  | inr next ↦ rw next (
    (ap u32 (ground (arith, next, firsts-above o p ps r.1, above o x p e r.0)), omega arith),
    All-imp (Tallied p.0 1 ps) (Tallied o n (p ∷ ps)) (next_run o n p ps (above o x p e r.0 next))
        (runs_after p.0 1 ps) (runs_after-Tallied p.0 1 p ps refl r.1),
  )
]

-- An entry of the runs has the number of the pairs of its identity.
pub runs-Tallied :
    (ps : List (ℕ × ℕ))
    → IsRising pair_before pair_same pair_before-IsOrder ps
    → All (λ e. e.shared_images ≡ u32 (firsts e.identity_id ps)) (runs ps)
unfolding runs
runs-Tallied [] r = tt
runs-Tallied (p ∷ ps) r =
    All-imp (Tallied p.0 1 ps) (λ e. e.shared_images ≡ u32 (firsts e.identity_id (p ∷ ps)))
      (λ e t. t.0) (runs_after p.0 1 ps) (runs_after-Tallied p.0 1 p ps refl r)

module _ (P : ℕ → Type 0) where
  runs_after-All :
      (o n : ℕ) (ps : List (ℕ × ℕ))
      → P o
      → All (λ p. P p.0) ps
      → All (λ e. P e.identity_id) (runs_after o n ps)
  unfolding runs_after
  runs_after-All o n [] h a = (h, tt)
  runs_after-All o n (p ∷ ps) h a = elim (Bool-cases (p.0 == o)) [
    | inl same ↦ rw same (runs_after-All o (n + 1) ps h a.1)
    | inr next ↦ rw next (h, runs_after-All p.0 1 ps a.0 a.1)
  ]

  pub runs-All : (ps : List (ℕ × ℕ)) → All (λ p. P p.0) ps → All (λ e. P e.identity_id) (runs ps)
  unfolding runs
  runs-All [] a = tt
  runs-All (p ∷ ps) a = runs_after-All p.0 1 ps a.0 a.1
