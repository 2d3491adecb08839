-- ===== src/Cluster.antt =====
-- src/identity/cluster.cpp and include/hvax/identity/cluster.hpp: the graph of neighbours that batch
-- clustering works on, the propagation of labels over it, and the union-find structure.
mod Forest
mod Union
mod Order
mod Edges
mod Labels
mod Tests
use hvax.Prelude.{
  ℕ, zero, suc, ◌+◌, ◌-◌, ◌*◌, ◌^◌, Bool, true, false, not, ◌&&◌, ◌||◌, Option, none, some, List,
  [], ◌∷◌, ◌++◌, ltb, leb, ◌==◌, if◌then◌else◌, Table, put, filled, min, max, ℤ, pos, negsuc,
}
use hvax.Floats.{Floats}
use hvax.Types.{u32}

-- UnionFind, as its vector of parents.
unfoldable pub singletons : ℕ → Table ℕ
singletons n = record { size = n; at = λ i. i }

-- The loop of find, whose rounds are counted: the parents after it, and the root.
unfoldable pub find_from : ℕ → Table ℕ → ℕ → Table ℕ × ℕ
find_from zero p x = (p, x)
find_from (suc fuel) p x =
    let p' = put p x (p.at (p.at x)) in
    let rest = find_from fuel p' (p'.at x) in if p.at x == x then (p, x) else rest

-- A parent is at most its child, so that no more than x + 1 rounds are run.
unfoldable pub find : Table ℕ → ℕ → Table ℕ × ℕ
find p x = find_from (suc x) p x

unfoldable pub link : Table ℕ → ℕ → ℕ → Table ℕ × Bool
link p a b = if a == b then (p, false) else ((if ltb a b then put p b a else put p a b), true)

unfoldable pub unite : Table ℕ → ℕ → ℕ → Table ℕ × Bool
unfolding find link
unite p x y = let (p1, a) = find p x in let (p2, b) = find p1 y in link p2 a b

pub record KnnGraph (F : Type 0) : Type 0 where
  pub n : ℕ
  pub k : ℕ
  pub nbr : Table ℕ
  pub sim : Table F

pub record CsrGraph (F : Type 0) : Type 0 where
  pub offsets : Table ℕ
  pub adj : Table ℕ
  pub w : Table F

-- The number of nodes, CsrGraph::n.
unfoldable pub nodes : {F : Type 0} → CsrGraph F → ℕ
nodes g = g.offsets.size - 1

pub record Edge (F : Type 0) : Type 0 where
  pub u : ℕ
  pub v : ℕ
  pub w : F

module _ (fl : Floats) where
  open fl use {Float, lit, neg, add, lt, le}

  unfoldable pub edge_of : KnnGraph Float → Float → Table Bool → ℕ → ℕ → Option (Edge Float)
  edge_of g edge_min eligible i j =
      let v = g.nbr.at (i * g.k + j) in
      let w = g.sim.at (i * g.k + j) in
      if v == 2 ^ 32 - 1 || (v == i || (leb g.n v || not (eligible.at v)))
      then none
      else (if lt w edge_min
          then none
          else some (record { u = min (u32 i) v; v = max (u32 i) v; w = w }))

  unfoldable pub push_edge : Option (Edge Float) → List (Edge Float) → List (Edge Float)
  push_edge none es = es
  push_edge (some e) es = e ∷ es

  -- The edges of the neighbours j, j + 1, … below j + left.
  unfoldable pub edges_of_node : KnnGraph Float → Float → Table Bool → ℕ → ℕ → ℕ → List (Edge Float)
  unfolding push_edge
  edges_of_node g edge_min eligible i j zero = []
  edges_of_node g edge_min eligible i j (suc left) =
      push_edge (edge_of g edge_min eligible i j) (edges_of_node g edge_min eligible i (j + 1) left)

  -- Those of the nodes i, i + 1, … below i + left.
  unfoldable pub edges_from : KnnGraph Float → Float → Table Bool → ℕ → ℕ → List (Edge Float)
  edges_from g edge_min eligible i zero = []
  edges_from g edge_min eligible i (suc left) =
      (if eligible.at i then edges_of_node g edge_min eligible i 0 g.k else [])
      ++ edges_from g edge_min eligible (i + 1) left

  unfoldable pub edge_before : Edge Float → Edge Float → Bool
  edge_before x y =
      if x.u == y.u then (if x.v == y.v then lt y.w x.w else ltb x.v y.v) else ltb x.u y.u

  unfoldable pub insert_edge : Edge Float → List (Edge Float) → List (Edge Float)
  insert_edge e [] = e ∷ []
  insert_edge e (x ∷ xs) =
      let rest = insert_edge e xs in if edge_before x e then x ∷ rest else e ∷ x ∷ xs

  unfoldable pub sort_edges : List (Edge Float) → List (Edge Float)
  unfolding insert_edge
  sort_edges [] = []
  sort_edges (e ∷ es) = insert_edge e (sort_edges es)

  -- Behind `e`, the last edge kept.
  unfoldable pub dedupe_after : Edge Float → List (Edge Float) → List (Edge Float)
  dedupe_after e [] = []
  dedupe_after e (x ∷ xs) =
      let same = dedupe_after e xs in
      let other = dedupe_after x xs in if e.u == x.u && e.v == x.v then same else x ∷ other

  unfoldable pub dedupe : List (Edge Float) → List (Edge Float)
  unfolding dedupe_after
  dedupe [] = []
  dedupe (e ∷ es) = e ∷ dedupe_after e es

  unfoldable pub unique_edges : KnnGraph Float → Float → Table Bool → List (Edge Float)
  unique_edges g edge_min eligible = dedupe (sort_edges (edges_from g edge_min eligible 0 g.n))

  -- ++offsets[i + 1] at both ends of every edge.
  pub degrees : Table ℕ → List (Edge Float) → Table ℕ
  degrees offsets [] = offsets
  degrees offsets (e ∷ es) =
      let offsets' = put offsets (e.u + 1) (offsets.at (e.u + 1) + 1) in
      degrees (put offsets' (e.v + 1) (offsets'.at (e.v + 1) + 1)) es

  pub prefix_sums : Table ℕ → ℕ → ℕ → Table ℕ
  prefix_sums offsets i zero = offsets
  prefix_sums offsets i (suc left) =
      prefix_sums (put offsets (i + 1) (offsets.at (i + 1) + offsets.at i)) (i + 1) left

  -- One direction of an edge, at the cursor of its node.
  pub emit : Table ℕ × CsrGraph Float → ℕ → ℕ → Float → Table ℕ × CsrGraph Float
  emit (fill, out) from to weight =
      let at_row = fill.at from in
      (
        put fill from (at_row + 1),
        record out { adj = put out.adj at_row to; w = put out.w at_row weight },
      )

  pub emit_all : Table ℕ × CsrGraph Float → List (Edge Float) → Table ℕ × CsrGraph Float
  unfolding emit
  emit_all s [] = s
  emit_all s (e ∷ es) = emit_all (emit (emit s e.u e.v e.w) e.v e.u e.w) es

  -- The arrays of the graph before they are filled.
  pub empty_graph : ℕ → Table ℕ → CsrGraph Float
  empty_graph total offsets = record {
    offsets = offsets;
    adj = filled total 0;
    w = filled total (lit 0 1);
  }

  pub filled_graph : ℕ → List (Edge Float) → Table ℕ → CsrGraph Float
  unfolding emit_all empty_graph
  filled_graph n uniq offsets =
      (emit_all (record { size = n; at = offsets.at }, empty_graph (offsets.at n) offsets) uniq).1

  pub symmetrize_knn : KnnGraph Float → Float → Table Bool → CsrGraph Float
  unfolding unique_edges degrees prefix_sums filled_graph
  symmetrize_knn g edge_min eligible =
      let uniq = unique_edges g edge_min eligible in
      filled_graph g.n uniq (prefix_sums (degrees (filled (g.n + 1) 0) uniq) 0 g.n)

  -- The votes of the neighbours at the places p, p + 1, … below p + left.
  unfoldable pub votes_of : CsrGraph Float → Table ℕ → ℕ → ℕ → List (ℕ × Float)
  votes_of g labels p zero = []
  votes_of g labels p (suc left) =
      (labels.at (g.adj.at p), g.w.at p) ∷ votes_of g labels (p + 1) left

  -- Votes of the same label keep the order of the neighbours; std::sort leaves it open.
  unfoldable pub insert_vote : ℕ × Float → List (ℕ × Float) → List (ℕ × Float)
  insert_vote x [] = x ∷ []
  insert_vote x (y ∷ ys) =
      let rest = insert_vote x ys in if ltb y.0 x.0 then y ∷ rest else x ∷ y ∷ ys

  unfoldable pub sort_votes : List (ℕ × Float) → List (ℕ × Float)
  unfolding insert_vote
  sort_votes [] = []
  sort_votes (x ∷ xs) = insert_vote x (sort_votes xs)

  -- The sum of each run of votes; `lab` and `sum` are those of the run begun.
  unfoldable pub runs : ℕ → Float → List (ℕ × Float) → List (ℕ × Float)
  runs lab sum [] = (lab, sum) ∷ []
  runs lab sum (x ∷ xs) =
      let same = runs lab (add sum x.1) xs in
      let other = runs x.0 (add (lit 0 1) x.1) xs in if x.0 == lab then same else (lab, sum) ∷ other

  unfoldable pub sums : List (ℕ × Float) → List (ℕ × Float)
  unfolding runs
  sums [] = []
  sums (x ∷ xs) = runs x.0 (add (lit 0 1) x.1) xs

  -- The heaviest label and its weight, and the weight of the current label.
  unfoldable pub heaviest : ℕ → ℕ → Float → Float → List (ℕ × Float) → ℕ × Float × Float
  heaviest cur best best_w cur_w [] = (best, best_w, cur_w)
  heaviest cur best best_w cur_w (x ∷ xs) =
      let sum = x.1 in
      let heavier = lt best_w sum || ((le sum best_w && le best_w sum) && ltb x.0 best) in
      heaviest cur (if heavier then x.0 else best) (if heavier then sum else best_w)
        (if x.0 == cur then sum else cur_w) xs

  -- The label that a node with the edges from b to e takes.
  unfoldable pub elected : CsrGraph Float → Table ℕ → ℕ → ℕ → ℕ → ℕ
  unfolding votes_of sort_votes sums heaviest
  elected g labels cur b e =
      let (best, best_w, cur_w) =
        heaviest cur cur (neg (lit 1 1)) (lit 0 1)
          (sums (sort_votes (votes_of g labels b (e - b)))) in
      if lt cur_w best_w then best else cur

  -- One node: the labels and the number of changes.
  unfoldable pub visit : CsrGraph Float → Table Bool → ℕ → Table ℕ → ℕ → Table ℕ × ℕ
  unfolding elected
  visit g fixed i labels changed =
      let b = g.offsets.at i in
      let e = g.offsets.at (i + 1) in
      let new = elected g labels (labels.at i) b e in
      if fixed.at i || (b == e || (new == labels.at i))
      then (labels, changed)
      else (put labels i new, changed + 1)

  -- The nodes i, i + 1, … below i + left.
  unfoldable pub sweep : CsrGraph Float → Table Bool → ℕ → ℕ → Table ℕ → ℕ → Table ℕ × ℕ
  unfolding visit
  sweep g fixed i zero labels changed = (labels, changed)
  sweep g fixed i (suc left) labels changed =
      let (labels', changed') = visit g fixed i labels changed in
      sweep g fixed (i + 1) left labels' changed'

  -- `left` is max_iters less the rounds that were run.
  unfoldable pub rounds : CsrGraph Float → Table Bool → ℕ → ℕ → Table ℕ → Table ℕ × ℕ
  unfolding sweep
  rounds g fixed zero iters labels = (labels, iters)
  rounds g fixed (suc left) iters labels =
      let (labels', changed) = sweep g fixed 0 (nodes g) labels 0 in
      let rest = rounds g fixed left (iters + 1) labels' in
      if changed == 0 then (labels', iters + 1) else rest

  unfoldable pub chinese_whispers : CsrGraph Float → Table ℕ → Table Bool → ℤ → Table ℕ × ℕ
  unfolding rounds
  chinese_whispers g labels fixed (negsuc _) = (labels, 0)
  chinese_whispers g labels fixed (pos max_iters) =
      if nodes g == 0 then (labels, 0) else rounds g fixed max_iters 0 labels
