-- ===== src/Cluster/Union.antt =====
-- UnionFind::unite of include/hvax/identity/cluster.hpp: two trees become one.
use hvax.Prelude.{
  ℕ, Bool, true, false, ◌≡◌, refl, sym, subst, ap, ◌∙◌, ◌<◌, ◌≤◌, inl, inr, Table, put, ◌==◌, ltb,
  if◌then◌else◌, not, min, max, arith, Bool-cases, ==_iff,
}
use hvax.Cluster.{find, link, unite}
use hvax.Cluster.Forest.{IsForest, Leads, top, up, Leads-parent, Leads-root, find-Finds}

Leads-unique : (p : Table ℕ) (z r s : ℕ) → Leads p z r → Leads p z s → r ≡ s
Leads-unique p z r s (top e) m = sym (Leads-root p z z s m refl e)
Leads-unique p z r s (up l) m = Leads-unique p (p.at z) r s l (Leads-parent p z (p.at z) s m refl)

-- The root of what has the root `s` in `p`, once the root `b` hangs below `a`.
abbrev moved : ℕ → ℕ → ℕ → ℕ
moved a b s = if s == b then a else s

-- `q` is the forest `p`, less the root `b`, which hangs below the root `a`.
abbrev Hung : Table ℕ → Table ℕ → ℕ → ℕ → Type 0
Hung p q a b =
    ((z : ℕ) → (z == b) ≡ false → q.at z ≡ p.at z)
    × (q.at b ≡ a)
    × (a < b)
    × (p.at a ≡ a)
    × (p.at b ≡ b)

Hung-a : (p q : Table ℕ) (a b : ℕ) → Hung p q a b → q.at a ≡ a
Hung-a p q a b h = h.0 a (ground (arith, h.2)) ∙ h.3

Hung-Leads : (p q : Table ℕ) (a b z s : ℕ) → Hung p q a b → Leads p z s → Leads q z (moved a b s)
Hung-Leads p q a b z s h (top e) = go (z == b) refl
  where
    go : (t : Bool) → (z == b) ≡ t → Leads q z (if t then a else z)
    go true same = up (
        subst (λ v. Leads q v a) (sym (ap q.at ((==_iff z b).0 same) ∙ h.1))
          (top (Hung-a p q a b h)))
    go false other = top (h.0 z other ∙ e)
Hung-Leads p q a b z s h (up l) = elim (Bool-cases (z == b)) [
  | inl same ↦
      subst (λ v. Leads q v (moved a b s)) (at_b ((==_iff z b).0 same))
        (Hung-Leads p q a b (p.at z) s h l)
  | inr other ↦
      up (
        subst (λ v. Leads q v (moved a b s)) (sym (h.0 z other))
          (Hung-Leads p q a b (p.at z) s h l))
]
  where
    at_b : z ≡ b → p.at z ≡ z
    at_b e = ap p.at e ∙ h.4 ∙ sym e

Hung-IsForest : (p q : Table ℕ) (a b : ℕ) → Hung p q a b → IsForest p → IsForest q
Hung-IsForest p q a b h f z = elim (Bool-cases (z == b)) [
  | inl same ↦ subst (λ v. q.at v ≤ v) (sym ((==_iff z b).0 same)) (omega (arith, h.1, h.2))
  | inr other ↦ omega (arith, f z, h.0 z other)
]

put-Hung : (p : Table ℕ) (a b : ℕ) → a < b → p.at a ≡ a → p.at b ≡ b → Hung p (put p b a) a b
put-Hung p a b less ea eb = (λ z h. ground (arith, h), ground arith, less, ea, eb)

-- The trees with the roots `a` and `b` become one below the lesser root, and no other index gets
-- another root; the answer says whether they were two.
abbrev pub Joins : Table ℕ → ℕ → ℕ → Table ℕ × Bool → Type 0
Joins p a b (q, joined) =
    IsForest q
    × (joined ≡ not (a == b))
    × ((z s : ℕ) → Leads p z s → Leads q z (moved (min a b) (max a b) s))

Hung-Joins :
    (p q : Table ℕ) (a b c d : ℕ)
    → Hung p q c d
    → IsForest p
    → min a b ≡ c
    → max a b ≡ d
    → (a == b) ≡ false
    → Joins p a b (q, true)
Hung-Joins p q a b c d h f ec ed e = (
  Hung-IsForest p q c d h f,
  sym (ap not e),
  λ z s l.
      subst (λ v. Leads q z (moved v (max a b) s)) (sym ec)
        (subst (λ v. Leads q z (moved c v s)) (sym ed) (Hung-Leads p q c d z s h l)),
)

moved-same : (a s : ℕ) → moved (min a a) (max a a) s ≡ s
moved-same a s = ground arith

link-Joins :
    (p : Table ℕ) (a b : ℕ) → IsForest p → p.at a ≡ a → p.at b ≡ b → Joins p a b (link p a b)
unfolding link
link-Joins p a b f ea eb = go (a == b) refl (ltb a b) refl
  where
    go :
        (t : Bool)
        → (a == b) ≡ t
        → (u : Bool) → ltb a b ≡ u
        → Joins p a b (if t then (p, false) else ((if u then put p b a else put p a b), true))
    go true e u eu = (
      f,
      sym (ap not e),
      λ z s l.
          subst (λ v. Leads p z (moved (min a v) (max a v) s)) ((==_iff a b).0 e)
            (subst (λ v. Leads p z v) (sym (moved-same a s)) l),
    )
    go false e true eu =
        Hung-Joins p (put p b a) a b a b (put-Hung p a b (ground (arith, eu)) ea eb) f
          (ground (arith, eu)) (ground (arith, eu)) e
    go false e false eu =
        Hung-Joins p (put p a b) a b b a (put-Hung p b a (ground (arith, e, eu)) eb ea) f
          (ground (arith, e, eu)) (ground (arith, e, eu)) e

-- The end of a path is a root.
Leads-top : (p : Table ℕ) (z r : ℕ) → Leads p z r → p.at r ≡ r
Leads-top p z r (top e) = e
Leads-top p z r (up l) = Leads-top p (p.at z) r l

-- What is said of the forest that find left holds of the one before it.
Joins-before :
    (p q : Table ℕ) (a b a' b' : ℕ) (s : Table ℕ × Bool)
    → a' ≡ a
    → b' ≡ b
    → ((z r : ℕ) → Leads p z r → Leads q z r)
    → Joins q a' b' s
    → Joins p a b s
Joins-before p q a b a' b' s ea eb keep j =
    subst (λ v. Joins p v b s) ea
      (subst (λ v. Joins p a' v s) eb (j.0, j.1, λ z r l. j.2 z r (keep z r l)))

-- On a forest, where `x` has the root `a` and `y` the root `b`, unite leaves a forest in which what
-- had the greater of the two roots has the lesser and every other index has the root it had; it
-- answers whether the two roots differ.
pub unite-Joins :
    (p : Table ℕ) (x y a b : ℕ) → IsForest p → Leads p x a → Leads p y b → Joins p a b (unite p x y)
unfolding unite
unite-Joins p x y a b f la lb =
    let m = find-Finds p x f in
    let p1 = (find p x).0 in
    let n = find-Finds p1 y m.0 in
    let p2 = (find p1 y).0 in
    let a' = (find p x).1 in
    let b' = (find p1 y).1 in
    Joins-before p p2 a b a' b' (link p2 a' b') (Leads-unique p x a' a m.2 la)
      (Leads-unique p1 y b' b n.2 (m.3 y b lb)) (λ z r l. n.3 z r (m.3 z r l))
      (link-Joins p2 a' b' n.0 (Leads-top p2 a' a' (n.3 a' a' (top m.1))) n.1)
