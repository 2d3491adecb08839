-- ===== src/Cluster/Labels.antt =====
-- chinese_whispers of src/identity/cluster.cpp: the labels that the propagation leaves.
use hvax.Prelude.{
  ℕ, zero, suc, ◌+◌, ◌-◌, Bool, true, false, ◌&&◌, ◌||◌, ◌≡◌, refl, subst, ap, ◌∙◌, ◌<◌, ◌≤◌, List,
  [], ◌∷◌, Table, put, ltb, ◌==◌, if◌then◌else◌, arith, ==_iff, pos,
}
use hvax.Floats.{Floats}
use hvax.Cluster.{
  CsrGraph, nodes, votes_of, insert_vote, sort_votes, runs, sums, heaviest, elected, visit, sweep,
  rounds, chinese_whispers,
}

module _ (fl : Floats) where
  open fl use {Float, lit, neg, add, lt, le}

  -- The label of each entry has the property `P`.
  abbrev Labelled : (ℕ → Type 0) → List (ℕ × Float) → Type 0
  Labelled P [] = Unit
  Labelled P (x ∷ xs) = P x.0 × Labelled P xs

  module _ (P : ℕ → Type 0) where
    votes_of-Labelled :
        (g : CsrGraph Float) (labels : Table ℕ) (p left : ℕ)
        → ((i : ℕ) → P (labels.at i))
        → Labelled P (votes_of fl g labels p left)
    unfolding votes_of
    votes_of-Labelled g labels p zero h = tt
    votes_of-Labelled g labels p (suc left) h =
        (h (g.adj.at p), votes_of-Labelled g labels (p + 1) left h)

    insert_vote-Labelled :
        (x : ℕ × Float) (ys : List (ℕ × Float))
        → P x.0
        → Labelled P ys
        → Labelled P (insert_vote fl x ys)
    unfolding insert_vote
    insert_vote-Labelled x [] h k = (h, tt)
    insert_vote-Labelled x (y ∷ ys) h k = go (ltb y.0 x.0) (insert_vote-Labelled x ys h k.1)
      where
        go :
            (b : Bool)
            → Labelled P (insert_vote fl x ys)
            → Labelled P (if b then y ∷ insert_vote fl x ys else x ∷ y ∷ ys)
        go true rest = (k.0, rest)
        go false rest = (h, k)

    sort_votes-Labelled : (xs : List (ℕ × Float)) → Labelled P xs → Labelled P (sort_votes fl xs)
    unfolding sort_votes
    sort_votes-Labelled [] h = tt
    sort_votes-Labelled (x ∷ xs) h =
        insert_vote-Labelled x (sort_votes fl xs) h.0 (sort_votes-Labelled xs h.1)

    runs-Labelled :
        (lab : ℕ) (sum : Float) (xs : List (ℕ × Float))
        → P lab
        → Labelled P xs
        → Labelled P (runs fl lab sum xs)
    unfolding runs
    runs-Labelled lab sum [] h k = (h, tt)
    runs-Labelled lab sum (x ∷ xs) h k =
        go (x.0 == lab) (runs-Labelled lab (add sum x.1) xs h k.1)
          (runs-Labelled x.0 (add (lit 0 1) x.1) xs k.0 k.1)
      where
        go :
            (b : Bool)
            → Labelled P (runs fl lab (add sum x.1) xs)
            → Labelled P (runs fl x.0 (add (lit 0 1) x.1) xs)
            → Labelled P (
                if b
                then runs fl lab (add sum x.1) xs
                else (lab, sum) ∷ runs fl x.0 (add (lit 0 1) x.1) xs)
        go true m n = m
        go false m n = (h, n)

    sums-Labelled : (xs : List (ℕ × Float)) → Labelled P xs → Labelled P (sums fl xs)
    unfolding sums
    sums-Labelled [] h = tt
    sums-Labelled (x ∷ xs) h = runs-Labelled x.0 (add (lit 0 1) x.1) xs h.0 h.1

    either_label : (b : Bool) (x y : ℕ) → P x → P y → P (if b then x else y)
    either_label true x y h k = h
    either_label false x y h k = k

    heaviest_label :
        (cur best : ℕ) (best_w cur_w : Float) (xs : List (ℕ × Float))
        → P best
        → Labelled P xs
        → P (heaviest fl cur best best_w cur_w xs).0
    unfolding heaviest
    heaviest_label cur best best_w cur_w [] h k = h
    heaviest_label cur best best_w cur_w (x ∷ xs) h k =
        let heavier = lt best_w x.1 || ((le x.1 best_w && le best_w x.1) && ltb x.0 best) in
        heaviest_label cur (if heavier then x.0 else best) (if heavier then x.1 else best_w)
          (if x.0 == cur then x.1 else cur_w) xs (either_label heavier x.0 best k.0 h) k.1

    elected_label :
        (g : CsrGraph Float) (labels : Table ℕ) (cur b e : ℕ)
        → P cur
        → ((i : ℕ) → P (labels.at i))
        → P (elected fl g labels cur b e)
    unfolding elected
    elected_label g labels cur b e h k =
        either_label _ _ cur
          (heaviest_label cur cur (neg (lit 1 1)) (lit 0 1) _ h
            (sums-Labelled _ (sort_votes-Labelled _ (votes_of-Labelled g labels b (e - b) k))))
          h

    -- What a step from `labels` with `changed` changes leads to: labels that have `P`, those of
    -- fixed nodes as before, and a count that tells whether any has changed.
    abbrev Spread : Table Bool → Table ℕ → ℕ → Table ℕ × ℕ → Type 0
    Spread fixed labels changed (labels', changed') =
        ((i : ℕ) → P (labels'.at i))
        × ((i : ℕ) → fixed.at i ≡ true → labels'.at i ≡ labels.at i)
        × (changed ≤ changed')
        × (changed' ≡ changed → labels' ≡ labels)

    Spread-then :
        (fixed : Table Bool) (labels : Table ℕ) (changed : ℕ) (s t : Table ℕ × ℕ)
        → Spread fixed labels changed s
        → Spread fixed s.0 s.1 t
        → Spread fixed labels changed t
    Spread-then fixed labels changed s t h k = (
      k.0,
      λ i e. k.1 i e ∙ h.1 i e,
      omega (arith, h.2, k.2),
      λ e. k.3 (omega (arith, h.2, k.2, e)) ∙ h.3 (omega (arith, h.2, k.2, e)),
    )

    visit-Spread :
        (g : CsrGraph Float) (fixed : Table Bool) (i : ℕ) (labels : Table ℕ) (changed : ℕ)
        → ((j : ℕ) → P (labels.at j))
        → Spread fixed labels changed (visit fl g fixed i labels changed)
    unfolding visit
    visit-Spread g fixed i labels changed h = go (fixed.at i) refl (
        (g.offsets.at i == g.offsets.at (i + 1))
        || (elected fl g labels (labels.at i) (g.offsets.at i) (g.offsets.at (i + 1))
            == labels.at i))
      where
        new : ℕ
        new = elected fl g labels (labels.at i) (g.offsets.at i) (g.offsets.at (i + 1))

        P_new : P new
        P_new = elected_label g labels (labels.at i) (g.offsets.at i) (g.offsets.at (i + 1)) (h i) h

        go :
            (b : Bool)
            → fixed.at i ≡ b
            → (c : Bool)
            → Spread fixed labels changed
                (if b || c then (labels, changed) else (put labels i new, changed + 1))
        go true e c = (h, λ j k. refl, omega arith, λ k. refl)
        go false e true = (h, λ j k. refl, omega arith, λ k. refl)
        go false e false = (
          λ j. either_label (j == i) new (labels.at j) P_new (h j),
          λ j k. ground (arith, k, e),
          omega arith,
          λ k. ground (arith, k),
        )

    sweep-Spread :
        (g : CsrGraph Float) (fixed : Table Bool) (i left : ℕ) (labels : Table ℕ) (changed : ℕ)
        → ((j : ℕ) → P (labels.at j))
        → Spread fixed labels changed (sweep fl g fixed i left labels changed)
    unfolding sweep
    sweep-Spread g fixed i zero labels changed h = (h, λ j k. refl, omega arith, λ k. refl)
    sweep-Spread g fixed i (suc left) labels changed h =
        let s = visit fl g fixed i labels changed in
        let v = visit-Spread g fixed i labels changed h in
        Spread-then fixed labels changed s (sweep fl g fixed (i + 1) left s.0 s.1) v
          (sweep-Spread g fixed (i + 1) left s.0 s.1 v.0)

    -- What the rounds lead to: at most `most` of them are run, and fewer only where one more
    -- would change nothing.
    abbrev pub Propagated : CsrGraph Float → Table Bool → Table ℕ → ℕ → Table ℕ × ℕ → Type 0
    Propagated g fixed labels most (labels', iters) =
        ((i : ℕ) → P (labels'.at i))
        × ((i : ℕ) → fixed.at i ≡ true → labels'.at i ≡ labels.at i)
        × (iters ≤ most)
        × (iters < most → sweep fl g fixed 0 (nodes g) labels' 0 ≡ (labels', 0))

    rounds-Propagated :
        (g : CsrGraph Float) (fixed : Table Bool) (left iters : ℕ) (labels : Table ℕ)
        → ((j : ℕ) → P (labels.at j))
        → Propagated g fixed labels (iters + left) (rounds fl g fixed left iters labels)
    unfolding rounds
    rounds-Propagated g fixed zero iters labels h =
        (h, λ j k. refl, omega arith, λ k. ground (arith, k))
    rounds-Propagated g fixed (suc left) iters labels h =
        go (changed == 0) refl (rounds-Propagated g fixed left (iters + 1) labels' v.0)
      where
        labels' : Table ℕ
        labels' = (sweep fl g fixed 0 (nodes g) labels 0).0

        changed : ℕ
        changed = (sweep fl g fixed 0 (nodes g) labels 0).1

        v : Spread fixed labels 0 (labels', changed)
        v = sweep-Spread g fixed 0 (nodes g) labels 0 h

        still : changed ≡ 0 → sweep fl g fixed 0 (nodes g) labels' 0 ≡ (labels', 0)
        still e = ap (λ z. sweep fl g fixed 0 (nodes g) z 0) (v.3 e) ∙ ap (λ c. (labels', c)) e

        go :
            (b : Bool)
            → (changed == 0) ≡ b
            → Propagated g fixed labels'
                (iters + 1 + left)
                (rounds fl g fixed left (iters + 1) labels')
            → Propagated g fixed labels
                (iters + suc left)
                (if b then (labels', iters + 1) else rounds fl g fixed left (iters + 1) labels')
        go true e rest = (v.0, v.1, omega arith, λ k. still ((==_iff changed 0).0 e))
        go false e rest = (
          rest.0,
          λ i k. rest.1 i k ∙ v.1 i k,
          omega (arith, rest.2),
          λ k. rest.3 (omega (arith, k)),
        )

    sweep_none :
        (g : CsrGraph Float) (fixed : Table Bool) (labels : Table ℕ) (n : ℕ)
        → n ≡ 0
        → sweep fl g fixed 0 n labels 0 ≡ (labels, 0)
    unfolding sweep
    sweep_none g fixed labels zero e = refl
    sweep_none g fixed labels (suc n) e = ground (arith, e)

  -- chinese_whispers runs at most max_iters rounds; every label that it leaves was a label before;
  -- fixed nodes keep theirs; and where it runs fewer rounds, one more would change nothing.
  pub chinese_whispers-Propagated :
      (g : CsrGraph Float) (labels : Table ℕ) (fixed : Table Bool) (max_iters : ℕ)
      → Propagated
          (λ l. (j : ℕ) × (labels.at j ≡ l))
          g
          fixed
          labels
          max_iters
          (chinese_whispers fl g labels fixed (pos max_iters))
  unfolding chinese_whispers
  chinese_whispers-Propagated g labels fixed max_iters = go (nodes g == 0) refl
    where
      known : (j : ℕ) → (i : ℕ) × (labels.at i ≡ labels.at j)
      known j = (j, refl)

      go :
          (b : Bool)
          → (nodes g == 0) ≡ b
          → Propagated
              (λ l. (j : ℕ) × (labels.at j ≡ l))
              g
              fixed
              labels
              max_iters
              (if b then (labels, 0) else rounds fl g fixed max_iters 0 labels)
      go true e = (
        known,
        λ i k. refl,
        omega arith,
        λ k.
            sweep_none (λ l. (j : ℕ) × (labels.at j ≡ l)) g fixed labels (nodes g)
              ((==_iff (nodes g) 0).0 e),
      )
      go false e =
          subst
            (λ m.
              Propagated (λ l. (j : ℕ) × (labels.at j ≡ l)) g fixed labels m
                (rounds fl g fixed max_iters 0 labels))
            (omega arith)
            (rounds-Propagated (λ l. (j : ℕ) × (labels.at j ≡ l)) g fixed max_iters 0 labels known)
