-- ===== src/Cluster/Forest.antt =====
-- UnionFind::find of include/hvax/identity/cluster.hpp, on a forest of parents.
use hvax.Prelude.{
  ℕ, zero, suc, Bool, true, false, ◌≡◌, refl, sym, subst, ap, ◌<◌, ◌≤◌, inl, inr, Table, put, ◌==◌,
  if◌then◌else◌, arith, Bool-cases, ◌∙◌, ==_iff,
}
use hvax.Cluster.{find_from, find}

-- No parent is above its child, which find relies on to end.
abbrev pub IsForest : Table ℕ → Type 0
IsForest p = (x : ℕ) → p.at x ≤ x

-- The parents lead from `x` to the root `r`.
pub data Leads (p : Table ℕ) : ℕ → ℕ → Type 0 where
  top : {x : ℕ} → p.at x ≡ x → Leads p x x
  up : {x r : ℕ} → Leads p (p.at x) r → Leads p x r

-- `q` has the parents of `p`, but for that of `x`, which is its grandparent.
abbrev Halved : Table ℕ → Table ℕ → ℕ → Type 0
Halved p q x = ((z : ℕ) → (z == x) ≡ false → q.at z ≡ p.at z) × (q.at x ≡ p.at (p.at x))

put-Halved : (p : Table ℕ) (x : ℕ) → Halved p (put p x (p.at (p.at x))) x
put-Halved p x = (λ z h. ground (arith, h), ground arith)

Halved-top : (p q : Table ℕ) (x y : ℕ) → Halved p q x → p.at y ≡ y → q.at y ≡ y
Halved-top p q x y h e = elim (Bool-cases (y == x)) [
  | inl same ↦ at_x ((==_iff y x).0 same)
  | inr other ↦ h.0 y other ∙ e
]
  where
    at_x : y ≡ x → q.at y ≡ y
    at_x s = ap q.at s ∙ h.1 ∙ ap p.at (ap p.at (sym s) ∙ e) ∙ e

-- From a parent, one step further.
pub Leads-parent : (q : Table ℕ) (z w r : ℕ) → Leads q z r → q.at z ≡ w → Leads q w r
Leads-parent q z w r (top e0) e = subst (λ v. Leads q v z) (sym e0 ∙ e) (top e0)
Leads-parent q z w r (up l) e = subst (λ v. Leads q v r) e l

-- What leads on from the parent of `x` leads on from `x`.
Halved-step : (p q : Table ℕ) (x r : ℕ) → Halved p q x → Leads q (p.at x) r → Leads q x r
Halved-step p q x r h l = elim (Bool-cases (p.at x == x)) [
  | inl same ↦ subst (λ z. Leads q z r) ((==_iff (p.at x) x).0 same) l
  | inr other ↦ up (
      subst (λ z. Leads q z r) (sym h.1)
        (Leads-parent q (p.at x) (p.at (p.at x)) r l (h.0 (p.at x) other)))
]

-- Halving changes no root.
Halved-Leads : (p q : Table ℕ) (x y r : ℕ) → Halved p q x → Leads p y r → Leads q y r
Halved-Leads p q x y r h (top e) = top (Halved-top p q x y h e)
Halved-Leads p q x y r h (up l) = elim (Bool-cases (y == x)) [
  | inl same ↦
      subst (λ z. Leads q z r) (sym ((==_iff y x).0 same))
        (Halved-step p q x r h (
          subst (λ z. Leads q (p.at z) r) ((==_iff y x).0 same)
            (Halved-Leads p q x (p.at y) r h l)))
  | inr other ↦
      up (subst (λ z. Leads q z r) (sym (h.0 y other)) (Halved-Leads p q x (p.at y) r h l))
]

Halved-IsForest : (p q : Table ℕ) (x : ℕ) → Halved p q x → IsForest p → IsForest q
Halved-IsForest p q x h f y = elim (Bool-cases (y == x)) [
  | inl same ↦
      subst (λ z. q.at z ≤ z) (sym ((==_iff y x).0 same)) (omega (arith, h.1, f x, f (p.at x)))
  | inr other ↦ omega (arith, f y, h.0 y other)
]

-- What holds a root leads to itself alone.
pub Leads-root : (p : Table ℕ) (z x r : ℕ) → Leads p z r → z ≡ x → p.at x ≡ x → r ≡ x
Leads-root p z x r (top _) s e = s
Leads-root p z x r (up l) s e = Leads-root p (p.at z) x r l (ap p.at s ∙ e) e

-- No root is new.
Halved-back : (p q : Table ℕ) (x y r : ℕ) → Halved p q x → IsForest p → Leads q y r → Leads p y r
Halved-back p q x y r h f (top e) = elim (Bool-cases (y == x)) [
  | inl same ↦ top (at_x ((==_iff y x).0 same))
  | inr other ↦ top (sym (h.0 y other) ∙ e)
]
  where
    at_x : y ≡ x → p.at y ≡ y
    at_x s = omega (arith, f y, f (p.at y), ap q.at s, h.1, e, ap p.at s, ap (λ z. p.at (p.at z)) s)
Halved-back p q x y r h f (up l) = elim (Bool-cases (y == x)) [
  | inl same ↦ at_x ((==_iff y x).0 same) (Halved-back p q x (q.at y) r h f l)
  | inr other ↦ up (subst (λ z. Leads p z r) (h.0 y other) (Halved-back p q x (q.at y) r h f l))
]
  where
    at_x : y ≡ x → Leads p (q.at y) r → Leads p y r
    at_x s m =
        up (up (subst (λ z. Leads p z r) (ap q.at s ∙ h.1 ∙ ap (λ z. p.at (p.at z)) (sym s)) m))

-- What find does to a forest `p`: it returns the root of `x` in the new forest `q`, and every
-- index keeps its root.
abbrev pub Finds : Table ℕ → ℕ → Table ℕ × ℕ → Type 0
Finds p x (q, r) = IsForest q × (q.at r ≡ r) × Leads p x r × ((y s : ℕ) → Leads p y s → Leads q y s)

-- A round of the loop.
Halved-Finds :
    (p q : Table ℕ) (x : ℕ) (s : Table ℕ × ℕ)
    → Halved p q x
    → IsForest p
    → Finds q (q.at x) s
    → Finds p x s
Halved-Finds p q x s h f m =
    (m.0, m.1, Halved-back p q x x s.1 h f (up m.2), λ y t l. m.3 y t (Halved-Leads p q x y t h l))

find_from-Finds :
    (fuel : ℕ) (p : Table ℕ) (x : ℕ) → x < fuel → IsForest p → Finds p x (find_from fuel p x)
unfolding find_from
find_from-Finds zero p x h f = ground arith
find_from-Finds (suc fuel) p x h f =
    go (p.at x == x) refl
      (λ less. find_from-Finds fuel q (q.at x) less (Halved-IsForest p q x (put-Halved p x) f))
  where
    q : Table ℕ
    q = put p x (p.at (p.at x))

    below : (p.at x == x) ≡ false → q.at x < fuel
    below e = ground (arith, e, h, f x, f (p.at x))

    go :
        (b : Bool)
        → (p.at x == x) ≡ b
        → (q.at x < fuel → Finds q (q.at x) (find_from fuel q (q.at x)))
        → Finds p x (if b then (p, x) else find_from fuel q (q.at x))
    go true e rest = (f, (==_iff (p.at x) x).0 e, top ((==_iff (p.at x) x).0 e), λ y s l. l)
    go false e rest =
        Halved-Finds p q x (find_from fuel q (q.at x)) (put-Halved p x) f (rest (below e))

-- On a forest find ends at the root of `x`, which is its own parent; what it leaves is a forest in
-- which every index has the root it had.
pub find-Finds : (p : Table ℕ) (x : ℕ) → IsForest p → Finds p x (find p x)
unfolding find
find-Finds p x f = find_from-Finds (suc x) p x (omega arith) f
